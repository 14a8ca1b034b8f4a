-- ===== src/Censoring/Names.antt =====
-- The name of an instance, `InstanceInfo::name` of censoring/src/main.rs, against its role and number.
use gossipsub_testground.Base.{ℕ, ◌<◌, ◌≡◌, refl, ap, sym, ◌∙◌, List, ◌∷◌, ◌++◌, word, arith}
use gossipsub_testground.Base.Decimal.{to_string, parse_u64, parse_u64-to_string}
use gossipsub_testground.Censoring.{
  Role, publisher, lurker, attacker, role_name, Peers, InstanceInfo, name,
}

to_string-inj : (m n : ℕ) → m < word → n < word → to_string m ≡ to_string n → m ≡ n
to_string-inj m n fits_m fits_n same =
    let e = sym (parse_u64-to_string m fits_m) ∙ ap parse_u64 same ∙ parse_u64-to_string n fits_n in
    cc e

same_head : (c d : ℕ) (x y : List ℕ) → c ∷ x ≡ d ∷ y → c ≡ d
same_head c d x y h = cc

role_name-inj :
    (r s : Role) (x y : List ℕ) → role_name r ++ x ≡ role_name s ++ y → (r ≡ s) × (x ≡ y)
role_name-inj publisher publisher x y h = (refl, cc)
role_name-inj publisher lurker x y h = absurd (omega (arith, same_head _ _ _ _ h))
role_name-inj publisher attacker x y h = absurd (omega (arith, same_head _ _ _ _ h))
role_name-inj lurker publisher x y h = absurd (omega (arith, same_head _ _ _ _ h))
role_name-inj lurker lurker x y h = (refl, cc)
role_name-inj lurker attacker x y h = absurd (omega (arith, same_head _ _ _ _ h))
role_name-inj attacker publisher x y h = absurd (omega (arith, same_head _ _ _ _ h))
role_name-inj attacker lurker x y h = absurd (omega (arith, same_head _ _ _ _ h))
role_name-inj attacker attacker x y h = (refl, cc)

-- Two instances whose numbers in their groups fit in 64 bits and whose names are equal have the
-- same role and the same number.
pub name-inj :
    (peers : Peers) (i j : InstanceInfo peers)
    → i.group_seq < word
    → j.group_seq < word
    → name peers i ≡ name peers j
    → (i.role ≡ j.role) × (i.group_seq ≡ j.group_seq)
unfolding name
name-inj peers i j fits_i fits_j same =
    let (same_role, same_number) =
      role_name-inj i.role j.role (to_string i.group_seq) (to_string j.group_seq) same in
    (same_role, to_string-inj i.group_seq j.group_seq fits_i fits_j same_number)
