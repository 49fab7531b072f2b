-- ===== src/FreqScheduler/Plain.antt =====
-- A schedule that is a list in ascending order, with whole numbers for scores: an instance of the
-- interface, for the tests.
use aduana.Common.{
  ℕ, suc, ◌≤◌, ◌≡◌, refl, Bool, ◌&&◌, ◌||◌, ltb, ◌==◌, if◌then◌else◌, Bool-cases, inl, inr, Option,
  none, some, List, [], ◌∷◌, length, arith,
}
use aduana.Ranks.Plain.{whole_numbers}
use aduana.FreqScheduler.{ScheduleKey, Queue}

abbrev pub Entry : Type 0
Entry = ScheduleKey whole_numbers × ℕ

abbrev pub head : List Entry → Option Entry
head [] = none
head (entry ∷ entries) = some entry

abbrev pub tail : List Entry → List Entry
tail [] = []
tail (entry ∷ entries) = entries

abbrev pub is_before : ScheduleKey whole_numbers → ScheduleKey whole_numbers → Bool
is_before a b = ltb a.score b.score || (a.score == b.score && ltb a.hash b.hash)

abbrev pub insert : ScheduleKey whole_numbers → ℕ → List Entry → List Entry
insert key freq [] = (key, freq) ∷ []
insert key freq ((other, freq') ∷ entries) =
    if is_before key other
    then (key, freq) ∷ (other, freq') ∷ entries
    else if is_before other key
    then (other, freq') ∷ insert key freq entries
    else (key, freq) ∷ entries

pub length-tail : (s : List Entry) (e : Entry) → head s ≡ some e → suc (length (tail s)) ≡ length s
length-tail [] e h = cc h
length-tail (entry ∷ entries) e h = refl

pub length-insert :
    (s : List Entry) (key : ScheduleKey whole_numbers) (freq : ℕ)
    → length (insert key freq s) ≤ suc (length s)
length-insert [] key freq = omega arith
length-insert ((other, freq') ∷ entries) key freq =
    let rest = length-insert entries key freq in
    elim (Bool-cases (is_before key other)) [
      | inl e ↦ rw e (omega arith)
      | inr e ↦ elim (Bool-cases (is_before other key)) [
        | inl e' ↦ rw (e, e') (omega (arith, rest))
        | inr e' ↦ rw (e, e') (omega arith)
      ]
    ]

abbrev pub ascending : Queue whole_numbers
ascending = record {
  State = List Entry;
  count = length;
  first = head;
  del_first = tail;
  put = λ s key freq. insert key freq s;
  del_first-count = length-tail;
  put-count = length-insert;
}
