-- ===== src/Frames/Lengths.antt =====
-- packages/rsocket-core/src/Frames.ts: the lengths of a frame's parts that the fragmenter counts.
use rsocket_js.Common.{ℕ}

abbrev pub frame : ℕ
frame = 3

abbrev pub header : ℕ
header = 6

abbrev pub metadata : ℕ
metadata = 3

abbrev pub request : ℕ
request = 3
