-- ===== src/CString/Join.antt =====
-- Loops of `strcat`: the result of every function that prints a list of texts.
use junction_box.Base.{
  Bool-cases, ltb, ltb→lt, inl, inr, bind_ext, bind_ok, ℕ, ◌+◌, ◌<◌, List, [], ◌∷◌, ◌++◌, ◌≡◌, ap,
  sym, ◌∙◌, arith, length, All, ok, fault, ◌>>=◌, write, drop,
}
use mathlib.Core.List.{append_assoc, append-nil}
use junction_box.CString.{Text, strcat, strcat_all, strcat_lk, path_join}
use junction_box.CString.Laws.{IsText, IsText-append, strcat_lem, strcat_overflow, length-drop}

unfoldable pub joined : List Text → Text
joined [] = []
joined (s ∷ ss) = s ++ joined ss

-- `stringLength`, summed up before a text is put together
unfoldable pub total : List Text → ℕ
total [] = 0
total (s ∷ ss) = length s + total ss

pub strcat_all_lem :
    (ss : List Text) (t rest : List ℕ)
    → IsText t
    → All IsText ss
    → length rest ≡ total ss
    → strcat_all (t ++ 0 ∷ rest) ss ≡ ok ((t ++ joined ss) ++ 0 ∷ [])
unfolding strcat_all joined total
strcat_all_lem [] t [] h hs e = rw append-nil
strcat_all_lem [] t (x ∷ rest) h hs e = absurd (omega arith)
strcat_all_lem (s ∷ ss) t rest h hs e = rw (strcat_lem t rest s h (omega arith)) (
    strcat_all_lem ss (t ++ s) (drop (length s) rest) (IsText-append t s h hs.0) hs.1
      (omega (arith, length-drop (length s) rest))
    ∙ ap (λ (u : Text). ok (u ++ 0 ∷ [])) (append_assoc t s (joined ss)))

-- A block of exactly the right size that starts with 0 takes the texts one behind the other.
pub join_lem :
    (ss : List Text) (buf : List ℕ)
    → All IsText ss
    → length buf ≡ total ss + 1
    → (write buf 0 0 >>= λ ret. strcat_all ret ss) ≡ ok (joined ss ++ 0 ∷ [])
join_lem ss [] hs e = absurd (omega arith)
join_lem ss (x ∷ buf) hs e = strcat_all_lem ss [] buf tt hs (omega arith)

-- Without that first 0 the texts go behind what the block held, and do not fit.
pub strcat_all_overflow :
    (s : Text) (ss : List Text) (t rest : List ℕ)
    → IsText t
    → All IsText (s ∷ ss)
    → length rest < total (s ∷ ss)
    → strcat_all (t ++ 0 ∷ rest) (s ∷ ss) ≡ fault
unfolding strcat_all total
strcat_all_overflow s [] t rest h hs e = rw (strcat_overflow t rest s h (omega arith))
strcat_all_overflow s (s' ∷ ss) t rest h hs e = elim (Bool-cases (ltb (length rest) (length s))) [
  | inl small ↦ rw (strcat_overflow t rest s h (ltb→lt _ _ small))
  | inr fits ↦ rw (strcat_lem t rest s h (ground arith)) (
      strcat_all_overflow s' ss (t ++ s) (drop (length s) rest) (IsText-append t s h hs.0) hs.1
        (ground (arith, length-drop (length s) rest)))
]

three :
    (s1 s2 s3 : Text) (buf : List ℕ)
    → (strcat buf s1 >>= λ b. (strcat b s2 >>= λ c. strcat c s3))
      ≡ strcat_all buf (s1 ∷ s2 ∷ s3 ∷ [])
unfolding strcat_all
three s1 s2 s3 buf =
    bind_ext (strcat buf s1) _ _ λ b. bind_ext (strcat b s2) _ _ λ c. sym (bind_ok (strcat c s3))

-- `strcatLK` returns the two texts with the separator between them.
pub strcat_lk_lem :
    (fresh : ℕ → List ℕ) (s1 s2 sep : Text)
    → ((n : ℕ) → length (fresh n) ≡ n)
    → IsText s1
    → IsText s2
    → IsText sep
    → strcat_lk fresh s1 s2 sep ≡ ok ((s1 ++ (sep ++ s2)) ++ 0 ∷ [])
unfolding strcat_lk joined total
strcat_lk_lem fresh s1 s2 sep fits h1 h2 hs =
    let buf : List ℕ = fresh (length s1 + length sep + length s2 + 1) in
    bind_ext (write buf 0 0) _ _ (three s1 sep s2)
    ∙ join_lem (s1 ∷ sep ∷ s2 ∷ []) buf (h1, (hs, (h2, tt)))
        (omega (arith, fits (length s1 + length sep + length s2 + 1)))
    ∙ ap (λ (u : Text). ok ((s1 ++ (sep ++ u)) ++ 0 ∷ [])) (append-nil s2)

-- `pathJoin` joins two paths by `/`.
pub path_join_lem :
    (fresh : ℕ → List ℕ) (path1 path2 : Text)
    → ((n : ℕ) → length (fresh n) ≡ n)
    → IsText path1
    → IsText path2
    → path_join fresh path1 path2 ≡ ok ((path1 ++ b'/' ∷ path2) ++ 0 ∷ [])
unfolding path_join
path_join_lem fresh path1 path2 fits h1 h2 =
    strcat_lk_lem fresh path1 path2 (b'/' ∷ []) fits h1 h2 (omega arith)
