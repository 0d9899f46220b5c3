-- ===== src/CString/Laws.antt =====
-- What the text functions leave in memory.
use junction_box.Base.{
  ℕ, zero, suc, ◌+◌, ◌-◌, ◌≤◌, ◌<◌, true, List, [], ◌∷◌, ◌++◌, ◌≡◌, ◌≢◌, ◌↔◌, refl, ◌∙◌, arith,
  length, All, ok, fault, length-append, drop,
}
use mathlib.Core.List.{append_assoc, append-nil}
use junction_box.CString.{Text, text_eq, put, strcat, string_create}

-- The characters of a text are not 0.
abbrev pub IsText : Text → Type 0
IsText s = All (λ c. c ≢ 0) s

pub text_eq_iff : (s t : Text) → (text_eq s t ≡ true) ↔ (s ≡ t)
unfolding text_eq
text_eq_iff [] [] = (λ _. refl, λ _. refl)
text_eq_iff [] (d ∷ t) = (λ h. cc, λ h. cc)
text_eq_iff (c ∷ s) [] = (λ h. cc, λ h. cc)
text_eq_iff (c ∷ s) (d ∷ t) = ground (arith, text_eq_iff s t)

pub put_lem : (s buf : List ℕ) → length s ≤ length buf → put s buf ≡ ok (s ++ drop (length s) buf)
unfolding put
put_lem [] buf h = refl
put_lem (c ∷ s) [] h = absurd (omega arith)
put_lem (c ∷ s) (b ∷ buf) h = rw (put_lem s buf (omega arith))

pub put_overflow : (s buf : List ℕ) → length buf < length s → put s buf ≡ fault
unfolding put
put_overflow [] buf h = absurd (omega arith)
put_overflow (c ∷ s) [] h = refl
put_overflow (c ∷ s) (b ∷ buf) h = rw (put_overflow s buf (omega arith))

-- With room for it, the second text is put behind the first.
pub strcat_lem :
    (t rest s : List ℕ)
    → IsText t
    → length s ≤ length rest
    → strcat (t ++ 0 ∷ rest) s ≡ ok ((t ++ s) ++ 0 ∷ drop (length s) rest)
unfolding strcat
strcat_lem [] rest s h room =
    let len : length (s ++ 0 ∷ []) ≡ suc (length s) = omega (arith, length-append s (0 ∷ [])) in
    put_lem (s ++ 0 ∷ []) (0 ∷ rest) (omega arith) ∙ rw (len, append_assoc)
strcat_lem (zero ∷ t) rest s h room = absurd (h.0 refl)
strcat_lem (suc c ∷ t) rest s h room = rw (strcat_lem t rest s h.1 room)

pub strcat_overflow :
    (t rest s : List ℕ) → IsText t → length rest < length s → strcat (t ++ 0 ∷ rest) s ≡ fault
unfolding strcat
strcat_overflow [] rest s h room =
    put_overflow (s ++ 0 ∷ []) (0 ∷ rest) (omega (arith, length-append s (0 ∷ [])))
strcat_overflow (zero ∷ t) rest s h room = absurd (h.0 refl)
strcat_overflow (suc c ∷ t) rest s h room = rw (strcat_overflow t rest s h.1 room)

pub length-drop : (n : ℕ) (xs : List ℕ) → length (drop n xs) ≡ length xs - n
length-drop zero xs = omega arith
length-drop (suc n) [] = omega arith
length-drop (suc n) (x ∷ xs) = omega (arith, length-drop n xs)

pub IsText-append : (s t : Text) → IsText s → IsText t → IsText (s ++ t)
IsText-append [] t h k = k
IsText-append (c ∷ s) t h k = (h.0, IsText-append s t h.1 k)

pub drop_all : (n : ℕ) (xs : List ℕ) → length xs ≤ n → drop n xs ≡ []
drop_all zero [] h = refl
drop_all zero (x ∷ xs) h = absurd (omega arith)
drop_all (suc n) [] h = refl
drop_all (suc n) (x ∷ xs) h = drop_all n xs (omega arith)

-- `String_Create` fills its block with the text and the final 0, whatever the block held.
pub string_create_lem :
    (fresh : ℕ → List ℕ) (string : Text)
    → ((n : ℕ) → length (fresh n) ≡ n)
    → string_create fresh string ≡ ok (string ++ 0 ∷ [])
unfolding string_create
string_create_lem fresh string fits =
    let len : length (string ++ 0 ∷ []) ≡ length string + 1 =
      omega (arith, length-append string (0 ∷ [])) in
    let size = fits (length string + 1) in
    put_lem (string ++ 0 ∷ []) (fresh (length string + 1)) (omega arith)
    ∙ rw
        (drop_all (length (string ++ 0 ∷ [])) (fresh (length string + 1)) (omega arith), append-nil)
