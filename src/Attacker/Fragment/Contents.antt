-- ===== src/Attacker/Fragment/Contents.antt =====
-- What each step of `fragment_message` does to the contents of the list of RPCs.
use gossipsub_testground.Base.{
  ℕ, ◌+◌, ◌≡◌, refl, sym, ap, ◌∙◌, ◌⊎◌, inl, inr, List, [], ◌∷◌, ◌++◌, map, Option, none, some,
  false, not, ◌&&◌, ok, ltb, is_empty, arith, append-nil, append_assoc, All, All-append, Bool-cases,
  >>=-eq-ok,
}
use gossipsub_testground.Attacker.Wire.{Wire, Rpc, ControlMessage, Codec}
use gossipsub_testground.Attacker.Fragment.{
  Item, publish, subscription, ihave, iwant, graft, prune, new_rpc, is_new, push, item_len, last?,
  modify_last, create_or_add_rpc, add_control, add_item, add_items, add_controls, put_control,
}

abbrev pub IsNonempty : {w : Wire} → List (Rpc w) → Type 0
IsNonempty l = is_empty l ≡ false

abbrev pub HasNoControl : {w : Wire} → List (Rpc w) → Type 0
HasNoControl = All (λ rpc. rpc.control ≡ none)

unfoldable pub control_items : {w : Wire} → Option (ControlMessage w) → List (Item w)
control_items none = []
control_items (some c) =
    map ihave c.ihave ++ (map iwant c.iwant ++ (map graft c.graft ++ map prune c.prune))

-- The objects of an RPC, in the order in which they are sent.
unfoldable pub items : {w : Wire} → Rpc w → List (Item w)
unfolding control_items
items rpc =
    map publish rpc.publish ++ (map subscription rpc.subscriptions ++ control_items rpc.control)

has_last : {A : Type 0} (l : List A) → is_empty l ≡ false → (x : A) × (last? l ≡ some x)
unfolding last?
has_last [] h = absurd cc
has_last (x ∷ []) h = (x, refl)
has_last (x ∷ y ∷ r) h = has_last (y ∷ r) refl

pub modify_last-nonempty :
    {A : Type 0} (f : A → A) (l : List A) → is_empty l ≡ false → is_empty (modify_last f l) ≡ false
unfolding modify_last
modify_last-nonempty f [] h = h
modify_last-nonempty f (x ∷ []) h = refl
modify_last-nonempty f (x ∷ y ∷ r) h = refl

append-nonempty : {A : Type 0} (xs ys : List A) → is_empty xs ≡ false → is_empty (xs ++ ys) ≡ false
append-nonempty [] ys h = absurd cc
append-nonempty (x ∷ xs) ys h = refl

-- What `create_or_add_rpc!` makes of the list.
abbrev IsReady : {w : Wire} → List (Rpc w) → List (Rpc w) → Type 0
IsReady l l' = (l' ≡ l) ⊎ (l' ≡ l ++ new_rpc ∷ [])

module _ {w : Wire} (codec : Codec w) where
  pub create_or_add-IsReady :
      (n : ℕ) (l : List (Rpc w))
      → IsNonempty l
      → (l' : List (Rpc w)) × (create_or_add_rpc codec n l ≡ ok l') × IsNonempty l' × IsReady l l'
  unfolding create_or_add_rpc
  create_or_add-IsReady n l h =
      let (current, e) = has_last l h in
      elim (Bool-cases (
        ltb codec.max_transmit_size (codec.rpc_len current + codec.with_five_percent n)
        && not (is_new current))) [
          | inl full ↦
              (l ++ new_rpc ∷ [], rw (e, full) refl, append-nonempty l (new_rpc ∷ []) h, inr refl)
          | inr room ↦ (l, rw (e, room) refl, h, inl refl)
        ]

  -- A round of a control loop, taken apart.
  pub add_control-IsReady :
      (item : Item w) (l : List (Rpc w))
      → IsNonempty l
      → (l' : List (Rpc w)) × (add_control codec item l ≡ ok (modify_last (push item) l'))
        × IsNonempty (modify_last (push item) l')
        × IsReady l l'
        × IsNonempty l'
  unfolding add_control
  add_control-IsReady item l h =
      let (l', e, full, ready) = create_or_add-IsReady (item_len codec item) l h in
      (l', rw e refl, modify_last-nonempty (push item) l' full, ready, full)

  pub add_item-ok :
      (item : Item w) (l l' : List (Rpc w))
      → add_item codec item l ≡ ok l'
      → add_control codec item l ≡ ok l'
  unfolding add_item
  add_item-ok item l l' e = ground arith

unfoldable pub picks : {w : Wire} {X : Type 0} → (Item w → List X) → List (Item w) → List X
picks pick [] = []
picks pick (x ∷ xs) = pick x ++ picks pick xs

-- A field of an RPC, and the objects that go into it.
pub record View (w : Wire) (X : Type 0) : Type 0 where
  pub field_of : Rpc w → List X
  pub pick : Item w → List X
  pub of_new : field_of new_rpc ≡ []
  pub of_push : (item : Item w) (rpc : Rpc w) → field_of (push item rpc) ≡ field_of rpc ++ pick item
  pub of_put :
      (c : ControlMessage w) (rpc : Rpc w)
      → rpc.control ≡ none
      → field_of (record rpc { control = some c })
        ≡ field_of rpc ++ picks pick (control_items (some c))
  pub of_items : (rpc : Rpc w) → field_of rpc ≡ picks pick (items rpc)

pub picks-append :
    {w : Wire} {X : Type 0} (pick : Item w → List X) (xs ys : List (Item w))
    → picks pick (xs ++ ys) ≡ picks pick xs ++ picks pick ys
unfolding picks
picks-append pick [] ys = refl
picks-append pick (x ∷ xs) ys = simp (picks-append pick xs ys, append_assoc)

unfoldable pub gather : {w : Wire} {X : Type 0} → (Rpc w → List X) → List (Rpc w) → List X
gather f [] = []
gather f (r ∷ rs) = f r ++ gather f rs

module _ {w : Wire} {X : Type 0} (v : View w X) where
  gather-new : (l : List (Rpc w)) → gather v.field_of (l ++ new_rpc ∷ []) ≡ gather v.field_of l
  unfolding gather
  gather-new [] = rw v.of_new
  gather-new (r ∷ rs) = rw (gather-new rs)

  gather-push :
      (item : Item w) (l : List (Rpc w))
      → IsNonempty l
      → gather v.field_of (modify_last (push item) l) ≡ gather v.field_of l ++ v.pick item
  unfolding gather modify_last
  gather-push item [] h = absurd cc
  gather-push item (r ∷ []) h = simp (v.of_push, append-nil)
  gather-push item (r ∷ q ∷ rs) h = simp (gather-push item (q ∷ rs) refl, append_assoc)

  gather-ready : (l l' : List (Rpc w)) → IsReady l l' → gather v.field_of l' ≡ gather v.field_of l
  gather-ready l l' (inl e) = rw e
  gather-ready l l' (inr e) = rw e (gather-new l)

  module _ (codec : Codec w) where
    add_control-gather :
        (item : Item w) (l l' : List (Rpc w))
        → IsNonempty l
        → add_control codec item l ≡ ok l'
        → IsNonempty l' × (gather v.field_of l' ≡ gather v.field_of l ++ v.pick item)
    add_control-gather item l l' h e =
        let (m, made, full, ready, some_rpc) = add_control-IsReady codec item l h in
        let same : l' ≡ modify_last (push item) m = cc in
        rw same
          (full, gather-push item m some_rpc ∙ ap (λ t. t ++ v.pick item) (gather-ready l m ready))

    pub add_controls-gather :
        (xs : List (Item w)) (l l' : List (Rpc w))
        → IsNonempty l
        → add_controls codec xs l ≡ ok l'
        → IsNonempty l' × (gather v.field_of l' ≡ gather v.field_of l ++ picks v.pick xs)
    unfolding add_controls picks
    add_controls-gather [] l l' h e = let same : l' ≡ l = cc in rw same (h, sym (append-nil _))
    add_controls-gather (x ∷ xs) l l' h e =
        let (m, made, rest) = >>=-eq-ok (add_control codec x l) _ e in
        let (full, first) = add_control-gather x l m h made in
        let (full', others) = add_controls-gather xs m l' full rest in
        (full', others ∙ rw first (append_assoc (gather v.field_of l) (v.pick x) (picks v.pick xs)))

    pub add_items-gather :
        (xs : List (Item w)) (l l' : List (Rpc w))
        → IsNonempty l
        → add_items codec xs l ≡ ok l'
        → IsNonempty l' × (gather v.field_of l' ≡ gather v.field_of l ++ picks v.pick xs)
    unfolding add_items picks
    add_items-gather [] l l' h e = let same : l' ≡ l = cc in rw same (h, sym (append-nil _))
    add_items-gather (x ∷ xs) l l' h e =
        let (m, made, rest) = >>=-eq-ok (add_item codec x l) _ e in
        let (full, first) = add_control-gather x l m h (add_item-ok codec x l m made) in
        let (full', others) = add_items-gather xs m l' full rest in
        (full', others ∙ rw first (append_assoc (gather v.field_of l) (v.pick x) (picks v.pick xs)))

-- The loops over the messages and the subscriptions leave the control fields alone.
abbrev pub IsPlain : {w : Wire} → Item w → Type 0
IsPlain item = (rpc : Rpc _) → (push item rpc).control ≡ rpc.control

module _ {w : Wire} (codec : Codec w) where
  HasNoControl-push :
      (item : Item w) (l : List (Rpc w))
      → IsPlain item
      → HasNoControl l
      → HasNoControl (modify_last (push item) l)
  unfolding modify_last
  HasNoControl-push item [] p h = tt
  HasNoControl-push item (r ∷ []) p h = (p r ∙ h.0, tt)
  HasNoControl-push item (r ∷ q ∷ rs) p h = (h.0, HasNoControl-push item (q ∷ rs) p h.1)

  HasNoControl-ready : (l l' : List (Rpc w)) → IsReady l l' → HasNoControl l → HasNoControl l'
  HasNoControl-ready l l' (inl e) h = rw e h
  HasNoControl-ready l l' (inr e) h =
      rw e (All-append (λ rpc. rpc.control ≡ none) l (new_rpc ∷ []) h (refl, tt))

  pub add_items-HasNoControl :
      (xs : List (Item w)) (l l' : List (Rpc w))
      → All IsPlain xs
      → IsNonempty l
      → HasNoControl l
      → add_items codec xs l ≡ ok l'
      → HasNoControl l'
  unfolding add_items
  add_items-HasNoControl [] l l' plain full h e = let same : l' ≡ l = cc in rw same h
  add_items-HasNoControl (x ∷ xs) l l' plain full h e =
      let (m, made, rest) = >>=-eq-ok (add_item codec x l) _ e in
      let (k, made', full', ready, _) = add_control-IsReady codec x l full in
      let again = add_item-ok codec x l m made in
      let same : m ≡ modify_last (push x) k = cc in
      add_items-HasNoControl xs m l' plain.1 (rw same full')
        (rw same (HasNoControl-push x k plain.0 (HasNoControl-ready l k ready h))) rest

  pub IsPlain-messages : (ms : List w.Message) → All (IsPlain {w = w}) (map publish ms)
  unfolding push
  IsPlain-messages [] = tt
  IsPlain-messages (m ∷ ms) = (λ rpc. refl, IsPlain-messages ms)

  pub IsPlain-subscriptions : (ss : List w.SubOpts) → All (IsPlain {w = w}) (map subscription ss)
  unfolding push
  IsPlain-subscriptions [] = tt
  IsPlain-subscriptions (s ∷ ss) = (λ rpc. refl, IsPlain-subscriptions ss)

module _ {w : Wire} {X : Type 0} (v : View w X) (codec : Codec w) where
  gather-put :
      (c : ControlMessage w) (l : List (Rpc w))
      → IsNonempty l
      → HasNoControl l
      → gather v.field_of (modify_last (λ rpc. record rpc { control = some c }) l)
        ≡ gather v.field_of l ++ picks v.pick (control_items (some c))
  unfolding gather modify_last
  gather-put c [] h k = absurd cc
  gather-put c (r ∷ []) h k = rw (v.of_put c r k.0) (
      rw
        (
          append-nil (v.field_of r),
          append-nil (v.field_of r ++ picks v.pick (control_items (some c))),
        )
        refl)
  gather-put c (r ∷ q ∷ rs) h k = simp (gather-put c (q ∷ rs) refl k.1, append_assoc)

  pub put_control-gather :
      (c : ControlMessage w) (l l' : List (Rpc w))
      → IsNonempty l
      → HasNoControl l
      → put_control codec c l ≡ ok l'
      → gather v.field_of l' ≡ gather v.field_of l ++ picks v.pick (control_items (some c))
  unfolding put_control
  put_control-gather c l l' full h e =
      let (m, made, full', ready) = create_or_add-IsReady codec (codec.control_len c) l full in
      let same : l' ≡ modify_last (λ rpc. record rpc { control = some c }) m =
        ground (arith, made) in
      rw same (
        gather-put c m full' (HasNoControl-ready codec l m ready h)
        ∙ ap (λ t. t ++ picks v.pick (control_items (some c))) (gather-ready v l m ready))
