-- ===== src/Frames/Flags.antt =====
-- packages/rsocket-core/src/Frames.ts: the bits of a frame's flags and the tests on them.
use rsocket_js.Common.{ℕ, ◌==◌, Bool, bit_and}

abbrev pub none : ℕ
none = 0

abbrev pub complete : ℕ
complete = 0x40

abbrev pub follows : ℕ
follows = 0x80

abbrev pub ignore : ℕ
ignore = 0x200

abbrev pub lease : ℕ
lease = 0x40

abbrev pub metadata : ℕ
metadata = 0x100

abbrev pub next : ℕ
next = 0x20

abbrev pub respond : ℕ
respond = 0x80

abbrev pub resume_enable : ℕ
resume_enable = 0x80

unfoldable pub has_metadata : ℕ → Bool
has_metadata flags = bit_and flags metadata == metadata

unfoldable pub has_complete : ℕ → Bool
has_complete flags = bit_and flags complete == complete

unfoldable pub has_next : ℕ → Bool
has_next flags = bit_and flags next == next

unfoldable pub has_follows : ℕ → Bool
has_follows flags = bit_and flags follows == follows

unfoldable pub has_ignore : ℕ → Bool
has_ignore flags = bit_and flags ignore == ignore

unfoldable pub has_respond : ℕ → Bool
has_respond flags = bit_and flags respond == respond

unfoldable pub has_lease : ℕ → Bool
has_lease flags = bit_and flags lease == lease

unfoldable pub has_resume : ℕ → Bool
has_resume flags = bit_and flags resume_enable == resume_enable
