-- ===== src/Complexity/Scenarios.antt =====
-- A small inventory, and names that the table of operating systems matches.
use migration_planner.Prelude.{
  ℕ, All, ◌==◌, String, Bool, Bool-cases, inl, inr, if◌then◌else◌, ◌≡◌, refl, List, [], ◌∷◌, map,
  total,
}
use migration_planner.Complexity.Tables.{Score, os_difficulty_scores, os_scores}
use migration_planner.Complexity.{
  contains, classify_os, VmOsEntry, os_breakdown, DiskTierInput, OsNameEntry, name_before,
  os_name_breakdown,
}
use migration_planner.Complexity.Names.{grouped, HasOneScore, os_breakdown-os_name_breakdown}
use mathlib.Core.List.{Permᴰ}
use mathlib.Core.List.Permᴰ
use migration_planner.Complexity.Counts.{count_of, vm_count_of, os_breakdown-total}

-- Names are taken in the case of the table.
abbrev as_written : String → String
as_written s = s

abbrev rhel : String
rhel = "Red Hat Enterprise Linux 9 (64-bit)"

abbrev linux_keys : List (String × Score)
linux_keys =
    ("Red Hat Enterprise Linux 8", 1) ∷ ("Red Hat Enterprise Linux 9", 1) ∷ ("Ubuntu Linux", 3) ∷ []

abbrev linux_keys_again : List (String × Score)
linux_keys_again =
    ("Red Hat Enterprise Linux 9", 1) ∷ ("Red Hat Enterprise Linux 8", 1) ∷ ("Ubuntu Linux", 3) ∷ []

-- Two keys of the table match the name and carry different scores: the answer is the one that the
-- map gives first.
sql_first :
    classify_os as_written
      (("Microsoft SQL", 4) ∷ ("Windows Server 2019", 2) ∷ [])
      "Windows Server 2019 with Microsoft SQL"
    ≡ 4
unfolding classify_os contains
sql_first = refl

windows_first :
    classify_os as_written
      (("Windows Server 2019", 2) ∷ ("Microsoft SQL", 4) ∷ [])
      "Windows Server 2019 with Microsoft SQL"
    ≡ 2
unfolding classify_os contains
windows_first = refl

abbrev entries : List VmOsEntry
entries =
    record { name = rhel; count = 10 }
    ∷ record { name = "Windows Server 2012 R2"; count = 4 }
    ∷ record { name = "CentOS 7"; count = 3 }
    ∷ record { name = "BeOS"; count = 1 }
    ∷ []

-- A sort by insertion.
insert_row : (OsNameEntry → OsNameEntry → Bool) → OsNameEntry → List OsNameEntry → List OsNameEntry
insert_row less x [] = x ∷ []
insert_row less x (y ∷ ys) =
    let rest = insert_row less x ys in if less y x then y ∷ rest else x ∷ y ∷ ys

insertion : (OsNameEntry → OsNameEntry → Bool) → List OsNameEntry → List OsNameEntry
insertion less [] = []
insertion less (x ∷ xs) = insert_row less x (insertion less xs)

insert_row-Perm :
    (less : OsNameEntry → OsNameEntry → Bool) (x : OsNameEntry) (xs : List OsNameEntry)
    → Permᴰ (x ∷ xs) (insert_row less x xs)
unfolding insert_row
insert_row-Perm less x [] = Permᴰ.refl (x ∷ [])
insert_row-Perm less x (y ∷ ys) = elim (Bool-cases (less y x)) [
  | inl later ↦
      rw later (Permᴰ.trans (Permᴰ.swap refl refl) (Permᴰ.cons refl (insert_row-Perm less x ys)))
  | inr here ↦ rw here (Permᴰ.refl (x ∷ y ∷ ys))
]

insertion-Perm :
    (less : OsNameEntry → OsNameEntry → Bool) (xs : List OsNameEntry) → Permᴰ xs (insertion less xs)
unfolding insertion
insertion-Perm less [] = Permᴰ.nil
insertion-Perm less (x ∷ xs) =
    Permᴰ.trans (Permᴰ.cons refl (insertion-Perm less xs))
      (insert_row-Perm less x (insertion less xs))

-- The two keys of Red Hat change places from call to call.
abbrev linux_orders : ℕ → List (String × Score)
linux_orders call = if call == 0 then linux_keys else linux_keys_again

abbrev linux_entries : List VmOsEntry
linux_entries =
    record { name = rhel; count = 10 }
    ∷ record { name = "Red Hat Enterprise Linux 8"; count = 4 }
    ∷ record { name = "BeOS"; count = 1 }
    ∷ []

in_either_order :
    (name : String) (count : ℕ)
    → classify_os as_written linux_keys_again name ≡ classify_os as_written linux_keys name
    → HasOneScore as_written linux_orders linux_keys (record { name = name; count = count })
in_either_order name count same call = elim (Bool-cases (call == 0)) [
  | inl first ↦ rw first refl
  | inr later ↦ rw (later, same) refl
]

linux-HasOneScore : All (HasOneScore as_written linux_orders linux_keys) linux_entries
unfolding classify_os contains
linux-HasOneScore = (
  in_either_order rhel 10 refl,
  (in_either_order "Red Hat Enterprise Linux 8" 4 refl, (in_either_order "BeOS" 1 refl, tt)),
)

os_breakdown-os_name_breakdown_example :
    os_breakdown as_written linux_keys linux_entries
    ≡ map (grouped (os_name_breakdown as_written linux_orders insertion linux_entries)) os_scores
os_breakdown-os_name_breakdown_example =
    os_breakdown-os_name_breakdown as_written linux_orders linux_keys insertion linux_entries
      linux-HasOneScore (insertion-Perm name_before)

os_breakdown-total_example :
    total (map vm_count_of (os_breakdown as_written os_difficulty_scores entries))
    ≡ total (map count_of entries)
os_breakdown-total_example = os_breakdown-total as_written os_difficulty_scores entries refl

-- Sizes in whole terabytes.
abbrev tiers : List (DiskTierInput ℕ)
tiers =
    record { label = "0-10TiB"; vm_count = 5; total_size_tb = 7 }
    ∷ record { label = "50+TiB"; vm_count = 2; total_size_tb = 120 }
    ∷ []
