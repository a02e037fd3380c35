-- ===== src/Agent/Summaries.antt =====
-- pkg/agent/loop.go: what the summaries of a session lose.
use vikram.Base.{
  ℕ, suc, ◌+◌, ◌-◌, ◌≤◌, String, true, false, ◌≡◌, refl, ap, ◌∙◌, List, [], ◌∷◌, ◌++◌, Option,
  ◌=s=◌, str_eq_refl, if◌then◌else◌, length, length-append, drop, ltb, arith,
}
use vikram.Base.Int.{pos}
use vikram.Base.Time.{Time}
use vikram.Providers.{Message}
use vikram.Session.{SessionManager, get_history, set_summary, last}
use vikram.Session.Histories.{
  get_history-set_summary, get_history-truncate_history, summarize_and_truncate_lem,
}
use vikram.Agent.{final_summary, store_summary}

shift : (a n : ℕ) → suc a + n ≡ suc (a + n)
shift a n = omega arith

drop-append : {A : Type 0} (xs ys : List A) (n : ℕ) → drop (length xs + n) (xs ++ ys) ≡ drop n ys
drop-append [] ys n = ap (λ i. drop i ys) (omega arith)
drop-append (x ∷ xs) ys n =
    ap (λ i. drop i (x ∷ xs ++ ys)) (shift (length xs) n) ∙ drop-append xs ys n

module _ {V : Type 0} where
  last-append : (k : ℕ) (xs ys : List (Message V)) → k ≤ length ys → last k (xs ++ ys) ≡ last k ys
  last-append k xs ys h =
      let n : length (xs ++ ys) - k ≡ length xs + (length ys - k) =
        omega (arith, length-append xs ys) in
      ap (λ i. drop i (xs ++ ys)) n ∙ drop-append xs ys (length ys - k)

  get_history-store_summary :
      (key other summary : String) (now : Time) (sm : SessionManager V)
      → (summary =s= "") ≡ false
      → get_history other (store_summary key summary now sm)
        ≡ (if key =s= other then last 4 (get_history other sm) else get_history other sm)
  unfolding store_summary
  get_history-store_summary key other summary now sm h =
      rw (h, summarize_and_truncate_lem key summary (pos 4) now sm)
        (get_history-truncate_history key other (pos 4) now (set_summary key summary now sm)
          ∙ rw (get_history-set_summary key other summary now sm) refl)

  -- If a session's history is what was read followed by at least four messages that have arrived since,
  -- then storing a summary that is not empty leaves the last four of those that have arrived, and so
  -- nothing of what was read.
  pub store_summary-arrived :
      (key summary : String) (now : Time) (sm : SessionManager V) (read arrived : List (Message V))
      → (summary =s= "") ≡ false
      → get_history key sm ≡ read ++ arrived
      → 4 ≤ length arrived
      → get_history key (store_summary key summary now sm) ≡ last 4 arrived
  store_summary-arrived key summary now sm read arrived h e n =
      get_history-store_summary key key summary now sm h
      ∙ ap (λ b. if b then last 4 (get_history key sm) else get_history key sm) (str_eq_refl key)
      ∙ ap (λ ms. last 4 ms) e
      ∙ last-append 4 read arrived n

-- With more than ten messages to summarise the summary that the session has is not looked at, so the
-- new one, which takes its place, says nothing of what came before.
pub final_summary-forgets :
    {V : Type 0} (chat : String → Option String) (valid : List (Message V)) (old older : String)
    → ltb 10 (length valid) ≡ true
    → final_summary chat valid old ≡ final_summary chat valid older
unfolding final_summary
final_summary-forgets chat valid old older h = rw h refl
