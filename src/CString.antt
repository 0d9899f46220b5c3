-- ===== src/CString.antt =====
-- Texts in memory: `strlen`, `strcat` and `strcmp` of C, and
-- src/components/JB_Util/JB_String.c.
--
-- A text is the list of its characters, none of them 0; a buffer is the list of the bytes of one
-- allocated block. A text in a buffer ends at the first 0. What `jballoc` returns is a parameter:
-- `fresh n` is the content of the next block of `n` bytes, whatever it held before.
pub mod Laws
pub mod Join
use junction_box.Base.{
  ℕ, zero, suc, ◌+◌, Bool, true, false, ◌&&◌, List, [], ◌∷◌, ◌++◌, ◌==◌, if◌then◌else◌, length, set,
  Outcome, ok, fault, ◌>>=◌, ◌>>◌, write,
}

abbrev pub Text : Type 0
Text = List ℕ

-- `strlen`
abbrev pub strlen : Text → ℕ
strlen s = length s

-- `strcmp(s, t) == 0`
unfoldable pub text_eq : Text → Text → Bool
text_eq [] [] = true
text_eq [] (d ∷ t) = false
text_eq (c ∷ s) [] = false
text_eq (c ∷ s) (d ∷ t) = c == d && text_eq s t

-- Writes the characters to the start of a buffer.
unfoldable pub put : Text → List ℕ → Outcome (List ℕ)
put [] buf = ok buf
put (c ∷ cs) [] = fault
put (c ∷ cs) (b ∷ buf) = put cs buf >>= λ rest. ok (c ∷ rest)

-- `strcat`: `s` and the final 0 go where the text in `buf` ends.
unfoldable pub strcat : List ℕ → Text → Outcome (List ℕ)
unfolding put
strcat [] s = fault
strcat (zero ∷ buf) s = put (s ++ 0 ∷ []) (zero ∷ buf)
strcat (suc c ∷ buf) s = strcat buf s >>= λ rest. ok (suc c ∷ rest)

-- A loop of `strcat` calls over the texts of a list.
unfoldable pub strcat_all : List ℕ → List Text → Outcome (List ℕ)
unfolding strcat
strcat_all buf [] = ok buf
strcat_all buf (s ∷ ss) = strcat buf s >>= λ buf'. strcat_all buf' ss

-- Each text and a space: the order of the `strcat` calls in the printers of sets and orderings.
abbrev pub spaced : List Text → List Text
spaced [] = []
spaced (s ∷ ss) = s ∷ (32 ∷ []) ∷ spaced ss

module _ (fresh : ℕ → List ℕ) where
  -- `String_Create`: `strncpy` of the text and its final 0.
  unfoldable pub string_create : Text → Outcome (List ℕ)
  unfolding put
  string_create string = put (string ++ 0 ∷ []) (fresh (strlen string + 1))

  unfoldable pub strcat_lk : Text → Text → Text → Outcome (List ℕ)
  unfolding strcat
  strcat_lk s1 s2 sep = do
    ret ← write (fresh (strlen s1 + strlen sep + strlen s2 + 1)) 0 0
    ret ← strcat ret s1
    ret ← strcat ret sep
    strcat ret s2

  unfoldable pub path_join : Text → Text → Outcome (List ℕ)
  unfolding strcat_lk
  path_join path1 path2 = strcat_lk path1 path2 (b'/' ∷ [])
