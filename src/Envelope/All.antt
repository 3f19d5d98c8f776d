-- ===== src/Envelope/All.antt =====
-- `load_all` of horus/envelope.py: every envelope that reads, the latest expiry first.
use horus_harness.Prelude.{
  String, Bool, Option, none, some, List, [], ◌∷◌, ◌==◌, ◌&&◌, ◌||◌, not, map, sorted,
}
use horus_harness.Prelude.Text.{◌<>◌, text_le}
use horus_harness.Calendar.{Calendar}
use horus_harness.Envelope.{Envelope, EnvelopeFile, Disk, load}

abbrev by_file : String × EnvelopeFile → String × EnvelopeFile → Bool
by_file (a, _) (b, _) = text_le (a <> ".toml") (b <> ".toml")

-- By `(expires, name)`, in reverse.
abbrev later : Envelope → Envelope → Bool
later a b = not (text_le a.expires b.expires) || (a.expires == b.expires && text_le b.name a.name)

abbrev pub loaded : List (Option Envelope) → List Envelope
loaded [] = []
loaded (none ∷ rest) = loaded rest
loaded (some e ∷ rest) = e ∷ loaded rest

module _ (cal : Calendar) where
  unfoldable pub load_all : Disk → List Envelope
  unfolding load sorted ◌<>◌
  load_all disk =
      sorted later (loaded (map (λ (name, file). load cal disk name) (sorted by_file disk.files)))
