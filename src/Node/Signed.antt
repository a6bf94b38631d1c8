-- ===== src/Node/Signed.antt =====
-- Signed arithmetic and `slice` with signed indices, as JavaScript has them.
use rsocket_js.Common.{ℕ, suc, ◌+◌, ◌-◌, ltb, leb, ◌==◌, Bool, true, false, length, if◌then◌else◌}
use rsocket_js.Node.{ℤ, pos, negsuc, Buffer, slice}

-- z - n
unfoldable pub minus : ℤ → ℕ → ℤ
minus (pos a) n = if leb n a then pos (a - n) else negsuc (n - suc a)
minus (negsuc a) n = negsuc (a + n)

unfoldable pub plus : ℤ → ℤ → ℤ
unfolding minus
plus (pos a) (pos b) = pos (a + b)
plus (pos a) (negsuc b) = minus (pos a) (suc b)
plus (negsuc a) (pos b) = minus (pos b) (suc a)
plus (negsuc a) (negsuc b) = negsuc (suc (a + b))

-- z < n
unfoldable pub below : ℤ → ℕ → Bool
below (pos a) n = ltb a n
below (negsuc a) n = true

-- Math.min(n, z)
unfoldable pub min_of : ℕ → ℤ → ℤ
min_of n (pos a) = if leb n a then pos n else pos a
min_of n (negsuc a) = negsuc a

-- z === n
unfoldable pub equals : ℤ → ℕ → Bool
equals (pos a) n = a == n
equals (negsuc a) n = false

-- A negative index counts from the end, and stops at the start.
unfoldable pub index : ℕ → ℤ → ℕ
index size (pos a) = a
index size (negsuc a) = size - suc a

-- `buf.slice(from, to)`
unfoldable pub slice_signed : Buffer → ℤ → ℤ → Buffer
unfolding slice index
slice_signed buf from to = slice buf (index (length buf) from) (index (length buf) to)
