-- ===== src/LoopDetect/Window.antt =====
-- pkg/agent/tool_loop_detect.go: a window that is capped after each element holds the last elements of
-- everything that was added.
use vikram.Base.{
  ℕ, zero, suc, ◌+◌, ◌-◌, ◌≤◌, List, [], ◌∷◌, ◌++◌, ◌≡◌, refl, sym, ap, ◌∙◌, arith, ltb, length,
  drop, drop_all, length-append, length-drop, Bool-cases, inl, inr,
}
use vikram.LoopDetect.{last, cap_window}

module _ {A : Type 0} where
  drop-append : (k : ℕ) (xs ys : List A) → k ≤ length xs → drop k (xs ++ ys) ≡ drop k xs ++ ys
  drop-append zero xs ys h = refl
  drop-append (suc k) [] ys h = absurd (omega arith)
  drop-append (suc k) (x ∷ xs) ys h = drop-append k xs ys (omega arith)

  drop-drop : (j k : ℕ) (xs : List A) → drop j (drop k xs) ≡ drop (k + j) xs
  drop-drop j zero xs = ground arith
  drop-drop j (suc k) [] = drop_all j [] (omega arith) ∙ sym (drop_all (suc k + j) [] (omega arith))
  drop-drop j (suc k) (x ∷ xs) =
      let e : suc (k + j) ≡ suc k + j = omega arith in
      drop-drop j k xs ∙ ap (λ n. drop n (x ∷ xs)) e

  pub length-last : (n : ℕ) (xs : List A) → length xs ≤ n → last n xs ≡ xs
  length-last n xs h = rw (all_kept n xs h)
    where
      all_kept : (n : ℕ) (xs : List A) → length xs ≤ n → length xs - n ≡ 0
      all_kept n xs h = omega arith

  cap_window-last_lem : (xs : List A) → cap_window xs ≡ last 30 xs
  cap_window-last_lem xs = elim (Bool-cases (ltb 30 (length xs))) [
    | inl e ↦ rw e
    | inr e ↦ rw e (sym (length-last 30 xs (ground arith)))
  ]

  -- Adding one element and cutting the window keeps it the last 30 of all elements.
  pub cap_window-last :
      (xs : List A) (x : A) → cap_window (last 30 xs ++ x ∷ []) ≡ last 30 (xs ++ x ∷ [])
  cap_window-last xs x =
      cap_window-last_lem (last 30 xs ++ x ∷ [])
      ∙ ap (last 30) (sym (drop-append (length xs - 30) xs (x ∷ []) (omega arith)))
      ∙ drop-drop _ (length xs - 30) (xs ++ x ∷ [])
      ∙ ap (λ n. drop n (xs ++ x ∷ []))
          (omega (arith, length-drop (length xs - 30) (xs ++ x ∷ []), length-append xs (x ∷ [])))
