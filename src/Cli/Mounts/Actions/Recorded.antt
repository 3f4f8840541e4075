-- ===== src/Cli/Mounts/Actions/Recorded.antt =====
-- What mounting and unmounting make of the state file of a guest.
use tartarus_nix.Base.{
  ◌≡◌, refl, sym, ap, inl, inr, true, false, none, List, [], ◌∷◌, ◌++◌, Text, bytes_eq,
  bytes_eq_iff, bytes_eq_refl, Bool-cases, arith,
}
use tartarus_nix.Json.{Fields, lookup, equals}
use tartarus_nix.Cli.Mounts.Specs.{Mode}
use tartarus_nix.Cli.Mounts.Machine.{has_target, find_in, without_target}
use tartarus_nix.Cli.Mounts.Guests.{new_record}

-- No target is that of two records.
abbrev pub Unique : List Fields → Type 0
Unique [] = Unit {0}
Unique (entry ∷ records) =
    ((target : Text) → has_target target entry ≡ true → find_in target records ≡ none)
    × Unique records

abbrev pub OnlyFor : Text → Fields → Type 0
OnlyFor target entry =
    (has_target target entry ≡ true) × ((t : Text) → has_target t entry ≡ true → t ≡ target)

pub new_record-OnlyFor :
    (identifier kind source target : Text) (mode : Mode) (stage : Text)
    → OnlyFor target (new_record identifier kind source target mode stage)
unfolding has_target lookup equals bytes_eq
new_record-OnlyFor identifier kind source target mode stage =
    (bytes_eq_refl target, λ t e. sym ((bytes_eq_iff target t).0 e))

find_in-snoc :
    (t : Text) (entry : Fields) (records : List Fields)
    → has_target t entry ≡ false
    → find_in t records ≡ none
    → find_in t (records ++ entry ∷ []) ≡ none
unfolding find_in
find_in-snoc t entry [] other h = ground arith
find_in-snoc t entry (e ∷ records) other h = ground (arith, find_in-snoc t entry records other)

pub Unique-snoc :
    (target : Text) (entry : Fields) (records : List Fields)
    → OnlyFor target entry
    → find_in target records ≡ none
    → Unique records
    → Unique (records ++ entry ∷ [])
unfolding find_in
Unique-snoc target entry [] only free u = ((λ t h. refl), tt)
Unique-snoc target entry (e ∷ records) only free u =
    let free_after : find_in target records ≡ none = ground arith in
    let other : has_target target e ≡ false = ground arith in
    (
      λ t h. elim (Bool-cases (has_target t entry)) [
        | inl same ↦
            let is : t ≡ target = only.1 t same in
            let clash : has_target target e ≡ true = rw is at h in absurd (cc)
        | inr apart ↦ find_in-snoc t entry records apart (u.0 t h)
      ],
      Unique-snoc target entry records only free_after u.1,
    )

find_in-without :
    (t target : Text) (records : List Fields)
    → find_in t records ≡ none
    → find_in t (without_target target records) ≡ none
unfolding find_in without_target
find_in-without t target [] h = refl
find_in-without t target (e ∷ records) h = ground (arith, find_in-without t target records)

pub without_target-Unique :
    (target : Text) (records : List Fields)
    → Unique records
    → Unique (without_target target records)
unfolding without_target
without_target-Unique target [] u = tt
without_target-Unique target (e ∷ records) u = elim (Bool-cases (has_target target e)) [
  | inl same ↦ rw same (without_target-Unique target records u.1)
  | inr other ↦ rw other (
    (λ t h. find_in-without t target records (u.0 t h)),
    without_target-Unique target records u.1,
  )
]

-- Taking away the record that was added leaves the records as they were.
pub without_target-snoc :
    (target : Text) (entry : Fields) (records : List Fields)
    → has_target target entry ≡ true
    → find_in target records ≡ none
    → without_target target (records ++ entry ∷ []) ≡ records
unfolding find_in without_target
without_target-snoc target entry [] same h = rw same
without_target-snoc target entry (e ∷ records) same h =
    let other : has_target target e ≡ false = ground arith in
    let rest : find_in target records ≡ none = ground arith in
    rw other (ap (λ (l : List Fields). e ∷ l) (without_target-snoc target entry records same rest))
