-- ===== src/Common/Wire.antt =====
-- Texts of lines: each line with its newline behind it.
use Prim.Native.Nat.{◌≤◌}
use mathlib.Core.List.{List, [], ◌∷◌, ◌++◌}
use native.Mathlib.Omega.{arith}
use esif_client_server.Common.Lists.{length, length-append}
use esif_client_server.Common.CString.{Bytes}

-- A line with its newline.
abbrev pub line_of : Bytes → Bytes
line_of l = l ++ b'\n' ∷ []

-- Lines one behind the other, as they are sent and as a file holds them.
unfoldable pub wire : List Bytes → Bytes
wire [] = []
wire (l ∷ ls) = line_of l ++ wire ls

pub length-wire : (ls : List Bytes) → length ls ≤ length (wire ls)
unfolding wire
length-wire [] = omega arith
length-wire (l ∷ ls) =
    omega (arith, length-wire ls, length-append (line_of l) (wire ls), length-append l (b'\n' ∷ []))
