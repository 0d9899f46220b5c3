-- ===== src/AssocMap/Print.antt =====
-- The printers of the maps.
use junction_box.Base.{
  ℕ, suc, false, ◌+◌, List, [], ◌∷◌, ◌++◌, map, ◌≡◌, arith, length, length-append, All,
  if◌then◌else◌, ◌==◌, ok, fault,
}
use junction_box.CString.{Text}
use junction_box.CString.Laws.{IsText}
use junction_box.CString.Join.{joined, total, strcat_all_lem, strcat_all_overflow}
use junction_box.AssocMap.{to_string}

module _ {K V : Type 0} (printer : K × V → Text) (me : K × V) (m : List (K × V)) (n : ℕ)
    (fresh : ℕ → List ℕ) where
  abbrev shown : List Text
  shown = map printer (me ∷ m)

  -- The printers of the four maps do not clear their block. On a map that is not empty the
  -- result is right when the block happens to begin with 0, and when it begins with another text
  -- the writes run past the end of the block.
  pub to_string-uncleared :
      (t rest : List ℕ)
      → All IsText shown
      → IsText t
      → fresh (total shown + 1) ≡ t ++ 0 ∷ rest
      → length (fresh (total shown + 1)) ≡ total shown + 1
      → to_string fresh printer (record { first = me ∷ m; size = n })
        ≡ (if length t == 0 then ok (joined shown ++ 0 ∷ []) else fault)
  unfolding to_string
  to_string-uncleared [] rest hs ht block size =
      rw block (strcat_all_lem shown [] rest tt hs (omega (arith, rw block at size)))
  to_string-uncleared (c ∷ t) rest hs ht block size =
      let sized : length (c ∷ t ++ 0 ∷ rest) ≡ total shown + 1 = rw block at size in
      let more : (suc (length t) == 0) ≡ false = ground arith in
      rw (block, more)
        (strcat_all_overflow (printer me) (map printer m) (c ∷ t) rest ht hs
          (omega (arith, sized, length-append t (0 ∷ rest))))
