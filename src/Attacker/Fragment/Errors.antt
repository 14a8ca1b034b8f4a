-- ===== src/Attacker/Fragment/Errors.antt =====
-- When `fragment_message` fails, and that it never panics.
use gossipsub_testground.Base.{
  ◌+◌, ◌≡◌, refl, ◌⊎◌, inl, inr, List, [], ◌∷◌, map, Option, none, some, Bool, true, false, ◌||◌,
  ok, err, ltb, any, arith, Bool-cases,
}
use gossipsub_testground.Attacker.Wire.{Wire, Rpc, ControlMessage, Codec}
use gossipsub_testground.Attacker.Fragment.{
  message_too_large, Item, publish, subscription, ihave, iwant, graft, prune, new_rpc, item_len,
  push, modify_last, add_item, add_items, add_controls, put_control, add_control_message,
  fragment_message,
}
use gossipsub_testground.Attacker.Fragment.Contents.{
  IsNonempty, create_or_add-IsReady, add_control-IsReady, modify_last-nonempty,
}

module _ {w : Wire} (codec : Codec w) where
  -- The object does not fit in any RPC.
  pub is_oversized : Item w → Bool
  is_oversized item = ltb codec.max_transmit_size (item_len codec item + 2)

  add_items_outcome :
      (xs : List (Item w)) (l : List (Rpc w))
      → IsNonempty l
      → ((any is_oversized xs ≡ true) × (add_items codec xs l ≡ err message_too_large))
        ⊎ ((any is_oversized xs ≡ false)
            × (l' : List (Rpc w)) × (add_items codec xs l ≡ ok l')
            × IsNonempty l')
  unfolding add_items add_item is_oversized
  add_items_outcome [] l full = inr (refl, l, refl, full)
  add_items_outcome (x ∷ xs) l full =
      let (m, made, full', _, _) = add_control-IsReady codec x l full in
      elim (Bool-cases (ltb codec.max_transmit_size (item_len codec x + 2))) [
        | inl big ↦ inl (rw big refl, rw big refl)
        | inr small ↦ elim (add_items_outcome xs (modify_last (push x) m) full') [
          | inl (some_big, e) ↦ inl (rw small some_big, rw (small, made) e)
          | inr (none_big, l', e, full'') ↦ inr (rw small none_big, l', rw (small, made) e, full'')
        ]
      ]

  add_controls_total :
      (xs : List (Item w)) (l : List (Rpc w))
      → IsNonempty l
      → (l' : List (Rpc w)) × (add_controls codec xs l ≡ ok l') × IsNonempty l'
  unfolding add_controls
  add_controls_total [] l full = (l, refl, full)
  add_controls_total (x ∷ xs) l full =
      let (m, made, full', _, _) = add_control-IsReady codec x l full in
      let (l', e, full'') = add_controls_total xs (modify_last (push x) m) full' in
      (l', rw made e, full'')

  put_control_total :
      (c : ControlMessage w) (l : List (Rpc w))
      → IsNonempty l
      → (l' : List (Rpc w)) × (put_control codec c l ≡ ok l') × IsNonempty l'
  unfolding put_control
  put_control_total c l full =
      let (m, made, full', _) = create_or_add-IsReady codec (codec.control_len c) l full in
      (
        modify_last (λ rpc. record rpc { control = some c }) m,
        rw made refl,
        modify_last-nonempty (λ rpc. record rpc { control = some c }) m full',
      )

  add_control_message_total :
      (control : Option (ControlMessage w)) (l : List (Rpc w))
      → IsNonempty l
      → (l' : List (Rpc w)) × (add_control_message codec control l ≡ ok l') × IsNonempty l'
  unfolding add_control_message
  add_control_message_total none l full = (l, refl, full)
  add_control_message_total (some c) l full =
      elim (Bool-cases (ltb codec.max_transmit_size (codec.control_len c + 2))) [
        | inl big ↦
            let (l1, e1, f1) = add_controls_total (map ihave c.ihave) l full in
            let (l2, e2, f2) = add_controls_total (map iwant c.iwant) l1 f1 in
            let (l3, e3, f3) = add_controls_total (map graft c.graft) l2 f2 in
            let (l4, e4, f4) = add_controls_total (map prune c.prune) l3 f3 in
            (l4, rw (big, e1, e2, e3) e4, f4)
        | inr small ↦ let (l', e, f) = put_control_total c l full in (l', rw small e, f)
      ]

  -- Some published message or subscription of the RPC does not fit.
  pub has_oversized : Rpc w → Bool
  unfolding is_oversized
  has_oversized rpc =
      any is_oversized (map publish rpc.publish)
      || any is_oversized (map subscription rpc.subscriptions)

  -- `fragment_message` never panics. It returns `MessageTooLarge` if the RPC reaches the maximal
  -- size and one of its published messages or subscriptions is by itself too large for an RPC; in
  -- all other cases it returns at least one fragment.
  pub fragment_message_outcome :
      (rpc : Rpc w)
      → ((ltb (codec.rpc_len rpc) codec.max_transmit_size ≡ false)
          × (has_oversized rpc ≡ true)
          × (fragment_message codec rpc ≡ err message_too_large))
        ⊎ (((ltb (codec.rpc_len rpc) codec.max_transmit_size ≡ true) ⊎ (has_oversized rpc ≡ false))
            × (rs : List (Rpc w)) × (fragment_message codec rpc ≡ ok rs)
            × IsNonempty rs)
  unfolding fragment_message has_oversized
  fragment_message_outcome rpc =
      elim (Bool-cases (ltb (codec.rpc_len rpc) codec.max_transmit_size)) [
        | inl small ↦ inr (inl small, rpc ∷ [], rw small refl, refl)
        | inr big ↦ elim (add_items_outcome (map publish rpc.publish) (new_rpc ∷ []) refl) [
          | inl (over, e) ↦ inl (big, rw over refl, rw (big, e) refl)
          | inr (fit, l1, e1, f1) ↦
              elim (add_items_outcome (map subscription rpc.subscriptions) l1 f1) [
                | inl (over, e) ↦ inl (big, rw (fit, over) refl, rw (big, e1, e) refl)
                | inr (fit', l2, e2, f2) ↦
                    let (rs, e, full) = add_control_message_total rpc.control l2 f2 in
                    inr (inr (rw (fit, fit') refl), rs, rw (big, e1, e2) e, full)
              ]
        ]
      ]

  -- An RPC with control messages alone is always sent: its fragmentation succeeds.
  pub fragment_message_control :
      (rpc : Rpc w)
      → rpc.publish ≡ []
      → rpc.subscriptions ≡ []
      → (rs : List (Rpc w)) × (fragment_message codec rpc ≡ ok rs)
  unfolding has_oversized
  fragment_message_control rpc h k = elim (fragment_message_outcome rpc) [
    | inl (_, over, _) ↦ absurd (ground (arith, h, k))
    | inr (_, rs, e, _) ↦ (rs, e)
  ]
