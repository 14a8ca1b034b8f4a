-- ===== src/Attacker/Fragment/Views.antt =====
-- The six fields of an RPC as views of the fragments.
use gossipsub_testground.Base.{◌≡◌, refl, sym, List, [], ◌∷◌, map, Option, none, some, append-nil}
use gossipsub_testground.Attacker.Wire.{Wire, ControlMessage}
use gossipsub_testground.Attacker.Fragment.{
  Item, publish, subscription, ihave, iwant, graft, prune, control_or_empty, push,
}
use gossipsub_testground.Attacker.Fragment.Contents.{
  View, control_items, items, picks, picks-append,
}

module _ {w : Wire} {X : Type 0} (pick : Item w → List X) where
  pub picks_all :
      (con : X → Item w) (xs : List X)
      → ((x : X) → pick (con x) ≡ x ∷ [])
      → picks pick (map con xs) ≡ xs
  unfolding picks
  picks_all con [] h = refl
  picks_all con (x ∷ xs) h = rw (h x, picks_all con xs h)

  pub picks_none :
      {Y : Type 0} (con : Y → Item w) (ys : List Y)
      → ((y : Y) → pick (con y) ≡ [])
      → picks pick (map con ys) ≡ []
  unfolding picks
  picks_none con [] h = refl
  picks_none con (y ∷ ys) h = rw (h y, picks_none con ys h)

module _ (w : Wire) where
  abbrev pick_publish : Item w → List w.Message
  pick_publish (publish x) = x ∷ []
  pick_publish _ = []

  pub control_publish : (o : Option (ControlMessage w)) → picks pick_publish (control_items o) ≡ []
  unfolding control_items picks
  control_publish none = refl
  control_publish (some c) = simp (
    picks-append,
    picks_none (pick_publish) ihave c.ihave (λ y. refl),
    picks_none (pick_publish) iwant c.iwant (λ y. refl),
    picks_none (pick_publish) graft c.graft (λ y. refl),
    picks_none (pick_publish) prune c.prune (λ y. refl),
    append-nil,
  )

  unfoldable pub publish_view : View w w.Message
  unfolding push items
  publish_view = record {
    field_of = λ rpc. rpc.publish;
    pick = pick_publish;
    of_new = refl;
    of_push = elim [
      | publish x ↦ λ rpc. refl
      | subscription x ↦ λ rpc. sym (append-nil rpc.publish)
      | ihave x ↦ λ rpc. sym (append-nil rpc.publish)
      | iwant x ↦ λ rpc. sym (append-nil rpc.publish)
      | graft x ↦ λ rpc. sym (append-nil rpc.publish)
      | prune x ↦ λ rpc. sym (append-nil rpc.publish)
    ];
    of_put = λ c rpc h. simp (control_publish (some c), append-nil);
    of_items = λ rpc. sym (
        simp (
          picks-append,
          picks_all (pick_publish) publish rpc.publish (λ y. refl),
          picks_none (pick_publish) subscription rpc.subscriptions (λ y. refl),
          control_publish rpc.control,
          append-nil,
        ));
  }

  abbrev pick_subscription : Item w → List w.SubOpts
  pick_subscription (subscription x) = x ∷ []
  pick_subscription _ = []

  pub control_subscription :
      (o : Option (ControlMessage w)) → picks pick_subscription (control_items o) ≡ []
  unfolding control_items picks
  control_subscription none = refl
  control_subscription (some c) = simp (
    picks-append,
    picks_none (pick_subscription) ihave c.ihave (λ y. refl),
    picks_none (pick_subscription) iwant c.iwant (λ y. refl),
    picks_none (pick_subscription) graft c.graft (λ y. refl),
    picks_none (pick_subscription) prune c.prune (λ y. refl),
    append-nil,
  )

  unfoldable pub subscription_view : View w w.SubOpts
  unfolding push items
  subscription_view = record {
    field_of = λ rpc. rpc.subscriptions;
    pick = pick_subscription;
    of_new = refl;
    of_push = elim [
      | publish x ↦ λ rpc. sym (append-nil rpc.subscriptions)
      | subscription x ↦ λ rpc. refl
      | ihave x ↦ λ rpc. sym (append-nil rpc.subscriptions)
      | iwant x ↦ λ rpc. sym (append-nil rpc.subscriptions)
      | graft x ↦ λ rpc. sym (append-nil rpc.subscriptions)
      | prune x ↦ λ rpc. sym (append-nil rpc.subscriptions)
    ];
    of_put = λ c rpc h. simp (control_subscription (some c), append-nil);
    of_items = λ rpc. sym (
        simp (
          picks-append,
          picks_none (pick_subscription) publish rpc.publish (λ y. refl),
          picks_all (pick_subscription) subscription rpc.subscriptions (λ y. refl),
          control_subscription rpc.control,
          append-nil,
        ));
  }

  abbrev pick_ihave : Item w → List w.IHave
  pick_ihave (ihave x) = x ∷ []
  pick_ihave _ = []

  pub control_ihave :
      (o : Option (ControlMessage w))
      → picks pick_ihave (control_items o) ≡ (control_or_empty o).ihave
  unfolding control_items picks
  control_ihave none = refl
  control_ihave (some c) = simp (
    picks-append,
    picks_all (pick_ihave) ihave c.ihave (λ y. refl),
    picks_none (pick_ihave) iwant c.iwant (λ y. refl),
    picks_none (pick_ihave) graft c.graft (λ y. refl),
    picks_none (pick_ihave) prune c.prune (λ y. refl),
    append-nil,
  )

  unfoldable pub ihave_view : View w w.IHave
  unfolding push items
  ihave_view = record {
    field_of = λ rpc. (control_or_empty rpc.control).ihave;
    pick = pick_ihave;
    of_new = refl;
    of_push = elim [
      | publish x ↦ λ rpc. sym (append-nil (control_or_empty rpc.control).ihave)
      | subscription x ↦ λ rpc. sym (append-nil (control_or_empty rpc.control).ihave)
      | ihave x ↦ λ rpc. refl
      | iwant x ↦ λ rpc. sym (append-nil (control_or_empty rpc.control).ihave)
      | graft x ↦ λ rpc. sym (append-nil (control_or_empty rpc.control).ihave)
      | prune x ↦ λ rpc. sym (append-nil (control_or_empty rpc.control).ihave)
    ];
    of_put = λ c rpc h. simp (h, control_ihave (some c));
    of_items = λ rpc. sym (
        simp (
          picks-append,
          picks_none (pick_ihave) publish rpc.publish (λ y. refl),
          picks_none (pick_ihave) subscription rpc.subscriptions (λ y. refl),
          control_ihave rpc.control,
        ));
  }

  abbrev pick_iwant : Item w → List w.IWant
  pick_iwant (iwant x) = x ∷ []
  pick_iwant _ = []

  pub control_iwant :
      (o : Option (ControlMessage w))
      → picks pick_iwant (control_items o) ≡ (control_or_empty o).iwant
  unfolding control_items picks
  control_iwant none = refl
  control_iwant (some c) = simp (
    picks-append,
    picks_none (pick_iwant) ihave c.ihave (λ y. refl),
    picks_all (pick_iwant) iwant c.iwant (λ y. refl),
    picks_none (pick_iwant) graft c.graft (λ y. refl),
    picks_none (pick_iwant) prune c.prune (λ y. refl),
    append-nil,
  )

  unfoldable pub iwant_view : View w w.IWant
  unfolding push items
  iwant_view = record {
    field_of = λ rpc. (control_or_empty rpc.control).iwant;
    pick = pick_iwant;
    of_new = refl;
    of_push = elim [
      | publish x ↦ λ rpc. sym (append-nil (control_or_empty rpc.control).iwant)
      | subscription x ↦ λ rpc. sym (append-nil (control_or_empty rpc.control).iwant)
      | ihave x ↦ λ rpc. sym (append-nil (control_or_empty rpc.control).iwant)
      | iwant x ↦ λ rpc. refl
      | graft x ↦ λ rpc. sym (append-nil (control_or_empty rpc.control).iwant)
      | prune x ↦ λ rpc. sym (append-nil (control_or_empty rpc.control).iwant)
    ];
    of_put = λ c rpc h. simp (h, control_iwant (some c));
    of_items = λ rpc. sym (
        simp (
          picks-append,
          picks_none (pick_iwant) publish rpc.publish (λ y. refl),
          picks_none (pick_iwant) subscription rpc.subscriptions (λ y. refl),
          control_iwant rpc.control,
        ));
  }

  abbrev pick_graft : Item w → List w.Graft
  pick_graft (graft x) = x ∷ []
  pick_graft _ = []

  pub control_graft :
      (o : Option (ControlMessage w))
      → picks pick_graft (control_items o) ≡ (control_or_empty o).graft
  unfolding control_items picks
  control_graft none = refl
  control_graft (some c) = simp (
    picks-append,
    picks_none (pick_graft) ihave c.ihave (λ y. refl),
    picks_none (pick_graft) iwant c.iwant (λ y. refl),
    picks_all (pick_graft) graft c.graft (λ y. refl),
    picks_none (pick_graft) prune c.prune (λ y. refl),
    append-nil,
  )

  unfoldable pub graft_view : View w w.Graft
  unfolding push items
  graft_view = record {
    field_of = λ rpc. (control_or_empty rpc.control).graft;
    pick = pick_graft;
    of_new = refl;
    of_push = elim [
      | publish x ↦ λ rpc. sym (append-nil (control_or_empty rpc.control).graft)
      | subscription x ↦ λ rpc. sym (append-nil (control_or_empty rpc.control).graft)
      | ihave x ↦ λ rpc. sym (append-nil (control_or_empty rpc.control).graft)
      | iwant x ↦ λ rpc. sym (append-nil (control_or_empty rpc.control).graft)
      | graft x ↦ λ rpc. refl
      | prune x ↦ λ rpc. sym (append-nil (control_or_empty rpc.control).graft)
    ];
    of_put = λ c rpc h. simp (h, control_graft (some c));
    of_items = λ rpc. sym (
        simp (
          picks-append,
          picks_none (pick_graft) publish rpc.publish (λ y. refl),
          picks_none (pick_graft) subscription rpc.subscriptions (λ y. refl),
          control_graft rpc.control,
        ));
  }

  abbrev pick_prune : Item w → List w.Prune
  pick_prune (prune x) = x ∷ []
  pick_prune _ = []

  pub control_prune :
      (o : Option (ControlMessage w))
      → picks pick_prune (control_items o) ≡ (control_or_empty o).prune
  unfolding control_items picks
  control_prune none = refl
  control_prune (some c) = simp (
    picks-append,
    picks_none (pick_prune) ihave c.ihave (λ y. refl),
    picks_none (pick_prune) iwant c.iwant (λ y. refl),
    picks_none (pick_prune) graft c.graft (λ y. refl),
    picks_all (pick_prune) prune c.prune (λ y. refl),
  )

  unfoldable pub prune_view : View w w.Prune
  unfolding push items
  prune_view = record {
    field_of = λ rpc. (control_or_empty rpc.control).prune;
    pick = pick_prune;
    of_new = refl;
    of_push = elim [
      | publish x ↦ λ rpc. sym (append-nil (control_or_empty rpc.control).prune)
      | subscription x ↦ λ rpc. sym (append-nil (control_or_empty rpc.control).prune)
      | ihave x ↦ λ rpc. sym (append-nil (control_or_empty rpc.control).prune)
      | iwant x ↦ λ rpc. sym (append-nil (control_or_empty rpc.control).prune)
      | graft x ↦ λ rpc. sym (append-nil (control_or_empty rpc.control).prune)
      | prune x ↦ λ rpc. refl
    ];
    of_put = λ c rpc h. simp (h, control_prune (some c));
    of_items = λ rpc. sym (
        simp (
          picks-append,
          picks_none (pick_prune) publish rpc.publish (λ y. refl),
          picks_none (pick_prune) subscription rpc.subscriptions (λ y. refl),
          control_prune rpc.control,
        ));
  }
