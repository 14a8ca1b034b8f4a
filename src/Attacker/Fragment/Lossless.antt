-- ===== src/Attacker/Fragment/Lossless.antt =====
-- `fragment_message` loses nothing, adds nothing and keeps the order of each field.
use gossipsub_testground.Base.{
  ◌+◌, ◌≡◌, refl, sym, ◌∙◌, inl, inr, List, [], ◌∷◌, ◌++◌, map, Option, none, some, Outcome, ok,
  ◌>>=◌, ltb, append-nil, append_assoc, Bool-cases, >>=-eq-ok,
}
use gossipsub_testground.Attacker.Wire.{Wire, Rpc, ControlMessage, Codec}
use gossipsub_testground.Attacker.Fragment.{
  PublishError, publish, subscription, ihave, iwant, graft, prune, new_rpc, control_or_empty,
  add_controls, add_items, add_control_message, fragment_message,
}
use gossipsub_testground.Attacker.Fragment.Views.{
  publish_view, subscription_view, ihave_view, iwant_view, graft_view, prune_view,
}
use gossipsub_testground.Attacker.Fragment.Contents.{
  IsNonempty, HasNoControl, View, control_items, items, picks, gather, picks-append,
  add_controls-gather, add_items-gather, add_items-HasNoControl, IsPlain-messages,
  IsPlain-subscriptions, put_control-gather,
}

ok-injective : {A : Type 0} {a b : A} → ◌≡◌ {A = Outcome PublishError A} (ok a) (ok b) → a ≡ b
ok-injective e = cc

module _ {w : Wire} {X : Type 0} (v : View w X) (codec : Codec w) where
  controls-gather :
      (c : ControlMessage w) (l l' : List (Rpc w))
      → IsNonempty l
      → (do
        l1 ← add_controls codec (map ihave c.ihave) l
        l2 ← add_controls codec (map iwant c.iwant) l1
        l3 ← add_controls codec (map graft c.graft) l2
        add_controls codec (map prune c.prune) l3)
        ≡ ok l'
      → gather v.field_of l' ≡ gather v.field_of l ++ picks v.pick (control_items (some c))
  unfolding control_items
  controls-gather c l l' full e =
      let (l1, e1, r1) = >>=-eq-ok (add_controls codec (map ihave c.ihave) l) _ e in
      let (f1, g1) = add_controls-gather v codec (map ihave c.ihave) l l1 full e1 in
      let (l2, e2, r2) = >>=-eq-ok (add_controls codec (map iwant c.iwant) l1) _ r1 in
      let (f2, g2) = add_controls-gather v codec (map iwant c.iwant) l1 l2 f1 e2 in
      let (l3, e3, r3) = >>=-eq-ok (add_controls codec (map graft c.graft) l2) _ r2 in
      let (f3, g3) = add_controls-gather v codec (map graft c.graft) l2 l3 f2 e3 in
      let (_, g4) = add_controls-gather v codec (map prune c.prune) l3 l' f3 r3 in
      g4 ∙ simp (g3, g2, g1, picks-append, append_assoc)

  add_control_message-gather :
      (control : Option (ControlMessage w)) (l l' : List (Rpc w))
      → IsNonempty l
      → HasNoControl l
      → add_control_message codec control l ≡ ok l'
      → gather v.field_of l' ≡ gather v.field_of l ++ picks v.pick (control_items control)
  unfolding add_control_message control_items picks
  add_control_message-gather none l l' full bare e =
      let same : l' ≡ l = cc in rw same (sym (append-nil (gather v.field_of l)))
  add_control_message-gather (some c) l l' full bare e =
      elim (Bool-cases (ltb codec.max_transmit_size (codec.control_len c + 2))) [
        | inl big ↦ controls-gather c l l' full (rw big at e)
        | inr small ↦ put_control-gather v codec c l l' full bare (rw small at e)
      ]

  -- The field of the RPC is spread over the fields of the fragments.
  pub fragment_message-gather :
      (rpc : Rpc w) (rs : List (Rpc w))
      → fragment_message codec rpc ≡ ok rs
      → gather v.field_of rs ≡ v.field_of rpc
  unfolding fragment_message gather items
  fragment_message-gather rpc rs e =
      elim (Bool-cases (ltb (codec.rpc_len rpc) codec.max_transmit_size)) [
        | inl small ↦
            let same : rs ≡ rpc ∷ [] = sym (ok-injective (rw small at e)) in
            rw same (append-nil (v.field_of rpc))
        | inr big ↦
            let (l1, e1, r1) =
              >>=-eq-ok (add_items codec (map publish rpc.publish) (new_rpc ∷ [])) _
                (rw big at e) in
            let (f1, g1) =
              add_items-gather v codec (map publish rpc.publish) (new_rpc ∷ []) l1 refl e1 in
            let (l2, e2, r2) =
              >>=-eq-ok (add_items codec (map subscription rpc.subscriptions) l1) _ r1 in
            let (f2, g2) =
              add_items-gather v codec (map subscription rpc.subscriptions) l1 l2 f1 e2 in
            let bare1 =
              add_items-HasNoControl codec (map publish rpc.publish) (new_rpc ∷ []) l1
                (IsPlain-messages codec rpc.publish) refl (refl, tt) e1 in
            let bare2 =
              add_items-HasNoControl codec (map subscription rpc.subscriptions) l1 l2
                (IsPlain-subscriptions codec rpc.subscriptions) f1 bare1 e2 in
            add_control_message-gather rpc.control l2 rs f2 bare2 r2
            ∙ (simp (g2, g1, v.of_new) (sym (v.of_items rpc ∙ simp (picks-append, append_assoc))))
      ]

-- If `fragment_message` returns `Ok`, then for each field of the RPC, those of its control message
-- included, the fragments' fields one behind the other are the field of the RPC: nothing is lost,
-- doubled or put in another order.
pub fragment_message_lossless :
    {w : Wire} (codec : Codec w) (rpc : Rpc w) (rs : List (Rpc w))
    → fragment_message codec rpc ≡ ok rs
    → (gather (λ r. r.publish) rs ≡ rpc.publish)
      × (gather (λ r. r.subscriptions) rs ≡ rpc.subscriptions)
      × (gather (λ r. (control_or_empty r.control).ihave) rs ≡ (control_or_empty rpc.control).ihave)
      × (gather (λ r. (control_or_empty r.control).iwant) rs ≡ (control_or_empty rpc.control).iwant)
      × (gather (λ r. (control_or_empty r.control).graft) rs ≡ (control_or_empty rpc.control).graft)
      × (gather (λ r. (control_or_empty r.control).prune) rs ≡ (control_or_empty rpc.control).prune)
unfolding publish_view subscription_view ihave_view iwant_view graft_view prune_view
fragment_message_lossless {w} codec rpc rs e = (
  fragment_message-gather (publish_view w) codec rpc rs e,
  fragment_message-gather (subscription_view w) codec rpc rs e,
  fragment_message-gather (ihave_view w) codec rpc rs e,
  fragment_message-gather (iwant_view w) codec rpc rs e,
  fragment_message-gather (graft_view w) codec rpc rs e,
  fragment_message-gather (prune_view w) codec rpc rs e,
)
