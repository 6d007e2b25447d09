-- ===== src/Util/Strings.antt =====
-- Text that crosses to C and back.
use grocksdb.Base.{◌≡◌, refl, true, false, ◌∷◌, [], Bytes, length, take-length}
use grocksdb.Base.{arith, Bool}
use grocksdb.Cgo.{c_string, until_nul, has_nul}
use grocksdb.Util.{c_view, ref_go_bytes, bool_to_char, char_to_bool}

pub has_nul-c_string : (s : Bytes) → has_nul (c_string s) ≡ true
unfolding has_nul
has_nul-c_string [] = refl
has_nul-c_string (b ∷ bs) = ground (arith, has_nul-c_string bs)

pub until_nul-c_string : (s : Bytes) → until_nul (c_string s) ≡ until_nul s
unfolding until_nul
until_nul-c_string [] = refl
until_nul-c_string (b ∷ bs) = ground (arith, until_nul-c_string bs)

-- A text with no zero byte comes back whole.
pub until_nul_whole : (s : Bytes) → has_nul s ≡ false → until_nul s ≡ s
unfolding has_nul until_nul
until_nul_whole [] h = refl
until_nul_whole (b ∷ bs) h = ground (arith, until_nul_whole bs)

pub c_view-ref_go_bytes : (b : Bytes) → c_view (ref_go_bytes b) (length b) ≡ b
unfolding ref_go_bytes c_view
c_view-ref_go_bytes [] = refl
c_view-ref_go_bytes (b ∷ bs) = take-length (b ∷ bs)

pub char_to_bool-bool_to_char : (b : Bool) → char_to_bool (bool_to_char b) ≡ b
unfolding char_to_bool bool_to_char
char_to_bool-bool_to_char true = refl
char_to_bool-bool_to_char false = refl
