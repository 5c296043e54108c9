-- ===== src/Occurrences/File.antt =====
-- controller/occurrence.rs: the file that the occurrences are written to, one line each. What the
-- file system does with a request is up to it.
use kulta.Prelude.{
  ℕ, zero, suc, ◌*◌, ◌≤◌, ◌<◌, ◌≡◌, refl, arith, String, Bool, true, false, ◌&&◌, ◌⊎◌, Option, none,
  some, List, [], ◌∷◌, ◌++◌, length, unwrap_or, ltb, Bool-cases, inl, inr, if◌then◌else◌,
}

unfoldable pub occurrence_dir : (String → Option String) → String
occurrence_dir env = unwrap_or (env "KULTA_OCCURRENCE_DIR") "/tmp/kulta"

abbrev pub max_occurrence_file_bytes : ℕ
max_occurrence_file_bytes = 10 * 1024 * 1024

-- Whether each request succeeds: the directory, the size, the truncation, the opening, the writing.
-- A write that fails may have written a part: as many bytes as it says.
pub record FileSystem : Type 0 where
  pub create_dir_all : Bool
  pub metadata : Bool
  pub truncate : Bool
  pub open_append : Bool
  pub write : Option ℕ

-- The bytes of the file, if there is one.
abbrev pub Content : Type 0
Content = Option (List ℕ)

-- `io::Result<()>`, and the file afterwards.
pub data Written : Type 0 where
  written : Content → Written
  io_error : Content → Written

abbrev bytes_of : Content → List ℕ
bytes_of content = unwrap_or content []

unfoldable pub first_bytes : ℕ → List ℕ → List ℕ
first_bytes zero bytes = []
first_bytes (suc n) [] = []
first_bytes (suc n) (b ∷ bytes) = b ∷ first_bytes n bytes

abbrev newline : ℕ
newline = 10

abbrev pub line_of : List ℕ → List ℕ
line_of json = json ++ newline ∷ []

abbrev pub appended : Option ℕ → List ℕ → List ℕ → Written
appended none json bytes = written (some (bytes ++ line_of json))
appended (some n) json bytes = io_error (some (bytes ++ first_bytes n (line_of json)))

module _ (fs : FileSystem) where
  abbrev pub append_line : List ℕ → Content → Written
  append_line json content =
      if fs.open_append then appended fs.write json (bytes_of content) else io_error content

  -- "Truncate if file exceeds size limit to prevent unbounded growth".
  abbrev pub is_too_long : Content → Bool
  is_too_long content = fs.metadata && ltb max_occurrence_file_bytes (length (bytes_of content))

  abbrev pub truncate_then_append : List ℕ → Content → Written
  truncate_then_append json content =
      if fs.truncate then append_line json (some []) else io_error content

  unfoldable pub write_occurrence : List ℕ → Content → Written
  write_occurrence json content =
      if fs.create_dir_all
      then if is_too_long content
        then truncate_then_append json content
        else append_line json content
      else io_error content

-- The bytes before the line that was written last.
pub record Appended (json : List ℕ) (before after : Content) : Type 0 where
  pub kept : List ℕ
  pub has_line : after ≡ some (kept ++ line_of json)
  pub kept_or_cut :
      (kept ≡ bytes_of before)
      ⊎ ((kept ≡ []) × (max_occurrence_file_bytes < length (bytes_of before)))
  pub kept_short : length kept ≤ max_occurrence_file_bytes

too_long : (a : Bool) (m n : ℕ) → (a && ltb m n) ≡ true → m < n
too_long a m n h = ground arith

not_too_long : (a : Bool) (m n : ℕ) → a ≡ true → (a && ltb m n) ≡ false → n ≤ m
not_too_long a m n h e = ground arith

module _ (fs : FileSystem) (json : List ℕ) where
  appended-written :
      (w : Option ℕ) (bytes : List ℕ) (after : Content)
      → appended w json bytes ≡ written after
      → after ≡ some (bytes ++ line_of json)
  appended-written none bytes after h = cc
  appended-written (some n) bytes after h = cc

  append_line-written :
      (content after : Content)
      → append_line fs json content ≡ written after
      → after ≡ some (bytes_of content ++ line_of json)
  append_line-written content after h = elim (Bool-cases fs.open_append) [
    | inl p ↦ appended-written fs.write (bytes_of content) after (rw p at h)
    | inr n ↦ absurd (cc (rw n at h))
  ]

  write_from :
      (before after : Content)
      → (long : Bool) → is_too_long fs before ≡ long
      → fs.metadata ≡ true
      → (if long then truncate_then_append fs json before else append_line fs json before)
        ≡ written after
      → Appended json before after
  write_from before after true e m h = elim (Bool-cases fs.truncate) [
    | inl p ↦ record {
      kept = [];
      has_line = append_line-written (some []) after (rw p at h);
      kept_or_cut = inr (refl, too_long fs.metadata _ (length (bytes_of before)) e);
      kept_short = omega arith;
    }
    | inr n ↦ absurd (cc (rw n at h))
  ]
  write_from before after false e m h = record {
    kept = bytes_of before;
    has_line = append_line-written before after h;
    kept_or_cut = inl refl;
    kept_short = not_too_long fs.metadata _ (length (bytes_of before)) m e;
  }

  -- Where the size of the file can be read: a write that succeeds leaves a file that ends with the
  -- line, after what was there before, or after nothing if that was more than 10 MB; so at most
  -- 10 MB stand before the line.
  pub write_occurrence-Appended :
      (before after : Content)
      → fs.metadata ≡ true
      → write_occurrence fs json before ≡ written after
      → Appended json before after
  unfolding write_occurrence
  write_occurrence-Appended before after m h = elim (Bool-cases fs.create_dir_all) [
    | inl p ↦ write_from before after (is_too_long fs before) refl m (rw p at h)
    | inr n ↦ absurd (cc (rw n at h))
  ]
