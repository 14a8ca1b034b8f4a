-- ===== src/Attacker/Fragment.antt =====
-- `fragment_message` of the attackers: an RPC that is too large goes out in several.
pub mod Contents
pub mod Errors
pub mod Views
pub mod Lossless
use gossipsub_testground.Base.{
  ℕ, ◌+◌, List, [], ◌∷◌, ◌++◌, map, Option, none, some, Bool, true, false, not, ◌&&◌, Outcome, ok,
  err, panic, expect, ◌>>=◌, ltb, if◌then◌else◌, is_empty,
}
use gossipsub_testground.Attacker.Wire.{Wire, Rpc, ControlMessage, Codec}

pub data PublishError : Type 0 where
  message_too_large : PublishError

module _ {A : Type 0} where
  unfoldable pub last? : List A → Option A
  last? [] = none
  last? (x ∷ []) = some x
  last? (x ∷ y ∷ r) = last? (y ∷ r)

  -- A change of `last_mut`.
  unfoldable pub modify_last : (A → A) → List A → List A
  modify_last f [] = []
  modify_last f (x ∷ []) = f x ∷ []
  modify_last f (x ∷ y ∷ r) = x ∷ modify_last f (y ∷ r)

module _ {w : Wire} where
  abbrev pub new_rpc : Rpc w
  new_rpc = record { subscriptions = []; publish = []; control = none }

  abbrev pub empty_control : ControlMessage w
  empty_control = record { ihave = []; iwant = []; graft = []; prune = [] }

  -- `rpc == new_rpc`
  unfoldable pub is_new : Rpc w → Bool
  is_new rpc =
      is_empty rpc.subscriptions
      && is_empty rpc.publish
      && elim rpc.control [ none ↦ true | some c ↦ false ]

  -- `control.get_or_insert_with(|| empty_control.clone())`
  abbrev pub control_or_empty : Option (ControlMessage w) → ControlMessage w
  control_or_empty none = empty_control
  control_or_empty (some c) = c

-- An object of an RPC, with the field that it belongs to.
pub data Item (w : Wire) : Type 0 where
  publish : w.Message → Item w
  subscription : w.SubOpts → Item w
  ihave : w.IHave → Item w
  iwant : w.IWant → Item w
  graft : w.Graft → Item w
  prune : w.Prune → Item w

-- The `push` at the end of each round of the loops.
unfoldable pub push : {w : Wire} → Item w → Rpc w → Rpc w
push (publish m) rpc = record rpc { publish = rpc.publish ++ m ∷ [] }
push (subscription s) rpc = record rpc { subscriptions = rpc.subscriptions ++ s ∷ [] }
push (ihave x) rpc =
    let c = control_or_empty rpc.control in
    record rpc { control = some (record c { ihave = c.ihave ++ x ∷ [] }) }
push (iwant x) rpc =
    let c = control_or_empty rpc.control in
    record rpc { control = some (record c { iwant = c.iwant ++ x ∷ [] }) }
push (graft x) rpc =
    let c = control_or_empty rpc.control in
    record rpc { control = some (record c { graft = c.graft ++ x ∷ [] }) }
push (prune x) rpc =
    let c = control_or_empty rpc.control in
    record rpc { control = some (record c { prune = c.prune ++ x ∷ [] }) }

module _ {w : Wire} (codec : Codec w) where
  open codec use {max_transmit_size, with_five_percent, rpc_len, control_len}

  unfoldable pub item_len : Item w → ℕ
  item_len (publish m) = codec.message_len m
  item_len (subscription s) = codec.subscription_len s
  item_len (ihave x) = codec.ihave_len x
  item_len (iwant x) = codec.iwant_len x
  item_len (graft x) = codec.graft_len x
  item_len (prune x) = codec.prune_len x

  -- The macro `create_or_add_rpc!`.
  unfoldable pub create_or_add_rpc : ℕ → List (Rpc w) → Outcome PublishError (List (Rpc w))
  create_or_add_rpc object_size rpc_list = do
    current ← expect (last? rpc_list)
    if ltb max_transmit_size (rpc_len current + with_five_percent object_size)
          && not (is_new current)
        then ok (rpc_list ++ new_rpc ∷ [])
        else ok rpc_list

  -- A round of a loop over the fields of the control message.
  unfoldable pub add_control : Item w → List (Rpc w) → Outcome PublishError (List (Rpc w))
  add_control item rpc_list = do
    l ← create_or_add_rpc (item_len item) rpc_list
    ok (modify_last (push item) l)

  -- The macro `add_item!`.
  unfoldable pub add_item : Item w → List (Rpc w) → Outcome PublishError (List (Rpc w))
  add_item item rpc_list =
      if ltb max_transmit_size (item_len item + 2)
      then err message_too_large
      else add_control item rpc_list

  unfoldable pub add_items : List (Item w) → List (Rpc w) → Outcome PublishError (List (Rpc w))
  add_items [] l = ok l
  add_items (x ∷ xs) l = do l' ← add_item x l; add_items xs l'

  unfoldable pub add_controls : List (Item w) → List (Rpc w) → Outcome PublishError (List (Rpc w))
  add_controls [] l = ok l
  add_controls (x ∷ xs) l = do l' ← add_control x l; add_controls xs l'

  -- The control message as a whole, which replaces what the last RPC has.
  unfoldable pub put_control : ControlMessage w → List (Rpc w) → Outcome PublishError (List (Rpc w))
  put_control control rpc_list = do
    l ← create_or_add_rpc (control_len control) rpc_list
    ok (modify_last (λ rpc. record rpc { control = some control }) l)

  unfoldable pub add_control_message :
      Option (ControlMessage w) → List (Rpc w) → Outcome PublishError (List (Rpc w))
  add_control_message none l = ok l
  add_control_message (some control) l =
      if ltb max_transmit_size (control_len control + 2)
      then (do
        l1 ← add_controls (map ihave control.ihave) l
        l2 ← add_controls (map iwant control.iwant) l1
        l3 ← add_controls (map graft control.graft) l2
        add_controls (map prune control.prune) l3)
      else put_control control l

  unfoldable pub fragment_message : Rpc w → Outcome PublishError (List (Rpc w))
  fragment_message rpc = if ltb (rpc_len rpc) max_transmit_size then ok (rpc ∷ []) else (do
    l1 ← add_items (map publish rpc.publish) (new_rpc ∷ [])
    l2 ← add_items (map subscription rpc.subscriptions) l1
    add_control_message rpc.control l2)
