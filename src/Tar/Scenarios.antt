-- ===== src/Tar/Scenarios.antt =====
-- A small archive, and runs of the reader over it.
use migration_planner.Prelude.{
  ℕ, ◌≡◌, refl, none, some, List, [], ◌∷◌, arith, take, drop, replicate, length,
}
use migration_planner.Tar.{
  ok, Section, TarEntry, TarReader, HeaderWriter, bytes_reader, padding, new_seekable_tar_reader,
  read, seek, find_section,
}
use migration_planner.Tar.Sections.{bytes_reader-Serves}
use migration_planner.Tar.Reading.{IsArchive}
use migration_planner.Tar.Building.{Holds, archive, new_seekable_tar_reader-IsArchive}
use migration_planner.Tar.Seeking.{seek-read, read_never_returns}

abbrev hello : List ℕ
hello = 104 ∷ 101 ∷ 108 ∷ 108 ∷ 111 ∷ []

abbrev world : List ℕ
world = 119 ∷ 33 ∷ []

-- Two sections that lie end to end.
abbrev two_sections : TarReader (Unit {0})
two_sections = record {
  sections =
      record { offset = 0; len = 5; reader = bytes_reader hello }
      ∷ record { offset = 5; len = 2; reader = bytes_reader world }
      ∷ [];
  total = 7;
  pos = 0;
}

abbrev both : List ℕ
both = 104 ∷ 101 ∷ 108 ∷ 108 ∷ 111 ∷ 119 ∷ 33 ∷ []

two_sections-IsArchive : IsArchive two_sections both
two_sections-IsArchive = record {
  backs = (
    hello,
    world,
    refl,
    refl,
    bytes_reader-Serves hello,
    refl,
    (world, [], refl, refl, bytes_reader-Serves world, refl, refl),
  );
  total_eq = refl;
  small = omega arith;
}

-- Three bytes from the fourth on, across the two sections.
seek-read_example :
    (w' : Unit {0}) × (read 9 (seek two_sections 3 0).1 3 tt
      ≡ some ((take 3 (drop 3 both), none), record two_sections { pos = 6 }, w'))
seek-read_example =
    seek-read 9 two_sections both 3 3 tt two_sections-IsArchive (omega arith) (omega arith)
      (omega arith)

-- A section of five bytes whose reader has two.
abbrev short_section : Section (Unit {0})
short_section = record { offset = 0; len = 5; reader = bytes_reader world }

abbrev short : TarReader (Unit {0})
short = record { sections = short_section ∷ []; total = 5; pos = 2 }

read_never_returns_example : read 1000 short 3 tt ≡ none
unfolding find_section bytes_reader
read_never_returns_example =
    read_never_returns 1000 short short_section 3 tt refl (λ want. refl) (omega arith) (omega arith)
      (omega arith)

abbrev plain_header : HeaderWriter
plain_header name size mode mod_time = ok (replicate 512 7)

abbrev hello_entry : TarEntry (Unit {0})
hello_entry = record {
  name = "hello";
  size = 5;
  mode = 420;
  mod_time = 0;
  reader = bytes_reader hello;
}

abbrev parts : List (List ℕ × List ℕ)
parts = (replicate 512 7, hello) ∷ []

hello-Holds : Holds plain_header (hello_entry ∷ []) parts
hello-Holds = Holds.cons refl refl refl (bytes_reader-Serves hello) Holds.nil

new_seekable_tar_reader-IsArchive_example :
    (r : TarReader (Unit {0})) × (new_seekable_tar_reader plain_header (hello_entry ∷ [])
      ≡ ok (r, length (archive parts)))
    × IsArchive r (archive parts)
    × (r.pos ≡ 0)
unfolding padding
new_seekable_tar_reader-IsArchive_example =
    new_seekable_tar_reader-IsArchive plain_header (hello_entry ∷ []) parts hello-Holds
      (omega arith)

abbrev no_header : HeaderWriter
no_header name size mode mod_time = ok (7 ∷ [])
