-- ===== src/Examples/Notices.antt =====
-- The theorems on the events and the occurrences, at samples.
use kulta.Prelude.{◌≡◌, refl, true, none, some, [], ◌∷◌}
use kulta.Crd.{RolloutStatus, default_status, progressing}
use kulta.Events.Build.{Accepts}
use kulta.Occurrences.File.{
  FileSystem, Appended, written, write_occurrence, write_occurrence-Appended, line_of,
}

abbrev all_accepted : Accepts
all_accepted = record {
  artifact = λ s. true;
  id = λ s. true;
  source = λ s. true;
  event = λ e. true;
}

abbrev begun : RolloutStatus
begun = record default_status { phase = some progressing }

abbrev disk : FileSystem
disk = record {
  create_dir_all = true;
  metadata = true;
  truncate = true;
  open_append = true;
  write = none;
}

second_line :
    write_occurrence disk (b'b' ∷ []) (some (line_of (b'a' ∷ [])))
    ≡ written (some (b'a' ∷ 10 ∷ b'b' ∷ 10 ∷ []))
unfolding write_occurrence
second_line = refl

write_occurrence-Appended_example :
    Appended (b'b' ∷ []) (some (line_of (b'a' ∷ []))) (some (b'a' ∷ 10 ∷ b'b' ∷ 10 ∷ []))
write_occurrence-Appended_example =
    write_occurrence-Appended disk (b'b' ∷ []) (some (line_of (b'a' ∷ [])))
      (some (b'a' ∷ 10 ∷ b'b' ∷ 10 ∷ [])) refl second_line
