-- ===== src/Tracker/Fates/Sources.antt =====
-- What a Write leaves of a line in a file of the tracker.
use bundle_broadcaster.Common.{◌⊎◌, some, String, ◌≡◌, refl, inl, inr, Option-cases, ℕ}
use bundle_broadcaster.Tracker.Loop.{Disk, line_break}
use bundle_broadcaster.Tracker.Writing.{left_by_write}

module _ (disk : Disk) (dir : String) where
  -- All of a line, or the part of it that a failing Write has left, in the file of a builder.
  abbrev pub IsLeft : String → String → String × String → Type 0
  IsLeft builder line l =
      (l ≡ (builder, line_break disk dir line))
      ⊎ ((n : ℕ) × (part : String) × (disk.wrote n builder (line_break disk dir line) ≡ some part)
          × (l ≡ (builder, part)))

  pub left_by_write-IsLeft :
      (n : ℕ) (builder line : String)
      → IsLeft builder line
          (builder, left_by_write disk dir (disk.wrote n builder (line_break disk dir line)) line)
  left_by_write-IsLeft n builder line =
      elim (Option-cases (disk.wrote n builder (line_break disk dir line))) [
        | inl whole ↦ rw whole (inl refl)
        | inr (part, failed) ↦ rw failed (inr (n, part, failed, refl))
      ]
