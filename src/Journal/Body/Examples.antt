-- ===== src/Journal/Body/Examples.antt =====
-- A turn whose body is one number, written and written again an hour later.
use mootloop.Base.{
  ℕ, ◌≡◌, refl, ◌↔◌, true, ◌&&◌, Option, none, some, [], ◌∷◌, Text, codes, Eq, nat_eq, nat_eq_iff,
  text_eq, text_eq_iff, ok, arith,
}
use mootloop.Journal.Body.{StoredTurn, IsStored, write_turn_body, write_turn_body-IsStored}

abbrev dump : StoredTurn ℕ → Text
dump r = r.body ∷ r.completed_at

abbrev validate : Text → Option (StoredTurn ℕ)
validate [] = none
validate (n ∷ t) = some (record { body = n; completed_at = t })

same_fields :
    (j k : StoredTurn ℕ)
    → (nat_eq j.body k.body && text_eq j.completed_at k.completed_at ≡ true) ↔ (j ≡ k)
same_fields j k =
    ground (arith, nat_eq_iff j.body k.body, text_eq_iff j.completed_at k.completed_at)

abbrev fields_eq : Eq (StoredTurn ℕ)
fields_eq = record {
  test = λ j k. nat_eq j.body k.body && text_eq j.completed_at k.completed_at;
  test_iff = same_fields;
}

abbrev turn : StoredTurn ℕ
turn = record { body = 7; completed_at = codes "10:00" }

abbrev later : StoredTurn ℕ
later = record { body = 7; completed_at = codes "11:00" }

kept_body : write_turn_body dump validate fields_eq (some (dump turn)) later ≡ ok (turn, dump turn)
unfolding write_turn_body text_eq
kept_body = refl

write_turn_body-IsStored_example :
    IsStored dump validate fields_eq (some (dump turn)) later turn (dump turn)
    × (write_turn_body dump validate fields_eq
          (some (dump turn))
          (record later { completed_at = codes "12:00" })
        ≡ ok (turn, dump turn))
write_turn_body-IsStored_example =
    write_turn_body-IsStored dump validate fields_eq (λ x. refl) (some (dump turn)) later turn
      (dump turn) (codes "12:00") kept_body
