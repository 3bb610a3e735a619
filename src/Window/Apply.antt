-- ===== src/Window/Apply.antt =====
-- `applyWindow` and `injectSummary` of window.go as a whole.
use mathlib.Core.Path.{subst}
use ia_harness.Base.{
  ℕ, zero, suc, ◌≤◌, ◌<◌, ℤ, pos, pos_part, ◌<ℤ◌, ◌≤ℤ◌, ◌^◌, ◌≡◌, refl, ap, sym, ◌∙◌, if-false,
  Option-cases, ◌⊎◌, inl, inr, String, Bool, true, false, ◌||◌, Option, none, some, List, [], ◌∷◌,
  ◌++◌, arith, leb_ℤ, is_empty, length, Bool-cases, All, if◌then◌else◌,
}
use ia_harness.Core.Message.{Bytes, Time, Message, is_system}
use ia_harness.Core.Config.{CompactionInfo}
use ia_harness.Cost.{Ratio}
use ia_harness.Window.{
  Settings, Summarizer, Block, flatten_blocks, context_blocks, take_oldest, remove_from,
  remove_oldest_blocks, inject, inject_summary, summary_message, whole, window_tokens, or_whole,
  below_trigger, compacted, fits_in, over_trigger, apply_window,
}
use ia_harness.Window.Trigger.{below_trigger-fits, fits-below_trigger}
use ia_harness.Window.Blocks.{flatten-context_blocks}
use ia_harness.Window.Removal.{
  IsLeast, split_at, split_at-zero, split_at-take_oldest, remove_oldest_blocks-IsRemoval,
}

remove_from-fits :
    (fits : List Message → Bool) (fuel : ℕ) (bs : List Block)
    → fits (flatten_blocks bs) ≡ true
    → remove_from fits fuel bs [] ≡ (flatten_blocks bs, [])
unfolding remove_from
remove_from-fits fits zero bs h = refl
remove_from-fits fits (suc fuel) bs h = rw (h, remove_from)

-- Nothing leaves a history that fits.
nothing_leaves :
    (fits : List Message → Bool) (ms : List Message)
    → fits ms ≡ true
    → remove_oldest_blocks fits ms ≡ (ms, [])
unfolding remove_oldest_blocks
nothing_leaves fits ms h =
    remove_from-fits fits (length (context_blocks ms)) (context_blocks ms)
      (rw (flatten-context_blocks ms) h)
    ∙ rw (flatten-context_blocks ms)

kept_ratio : (ratio : Ratio) → pos 0 <ℤ ratio.num → or_whole ratio ≡ ratio
kept_ratio ratio h = if-false (leb_ℤ ratio.num (pos 0)) whole ratio (ground (arith, h))

not_empty : {A : Type 0} (xs : List A) → is_empty xs ≡ false → 0 < length xs
not_empty [] h = absurd (ground (arith, h))
not_empty (x ∷ xs) h = omega arith

empty-nil : {A : Type 0} (xs : List A) → is_empty xs ≡ true → xs ≡ []
empty-nil [] h = refl
empty-nil (x ∷ xs) h = absurd (ground (arith, h))

is_empty-removed :
    (r : List Message × List Message) (kept removed : List Message)
    → r ≡ (kept, removed)
    → is_empty r.1 ≡ true
    → is_empty removed ≡ true
is_empty-removed r kept removed e h = subst (λ x. is_empty x.1 ≡ true) e h

-- Where too much is left and nothing went, nothing may go.
nothing_goes :
    (fits : List Message → Bool) (messages : List Message) (k : ℕ)
    → IsLeast fits (context_blocks messages) k
    → fits messages ≡ false
    → is_empty (flatten_blocks (split_at k (context_blocks messages)).1) ≡ true
    → take_oldest (context_blocks messages) ≡ none
nothing_goes fits messages zero least short nothing = elim least.stops [
  | inr n ↦ ap take_oldest (sym (ap (λ p. p.0) (split_at-zero (context_blocks messages)))) ∙ n
  | inl h ↦ absurd (
      ground (
        arith,
        short,
        sym (
              ap fits (
                ap (λ p. flatten_blocks p.0) (split_at-zero (context_blocks messages))
                ∙ flatten-context_blocks messages))
            ∙ h,
      ))
]
nothing_goes fits messages (suc k) least short nothing =
    elim (Option-cases (take_oldest (context_blocks messages))) [
      | inl n ↦ n
      | inr ((d, rest), found) ↦ absurd (
          ground (
            arith,
            nothing,
            ap (λ p. is_empty (flatten_blocks p.1))
                (split_at-take_oldest k (context_blocks messages) d rest found),
          ))
    ]

-- Two triggers pick alike where the first implies the second and the two results agree between.
pick {ℓ} :
    {A : Type ℓ} (off t u : Bool) (a b : A)
    → (t ≡ true → u ≡ true)
    → (t ≡ false → u ≡ true → b ≡ a)
    → (if off then a else if t then a else b) ≡ (if off then a else if u then a else b)
pick true t u a b h k = refl
pick false true true a b h k = refl
pick false true false a b h k = cc (h refl)
pick false false true a b h k = k refl refl
pick false false false a b h k = refl

module _ (s : Settings) (summarizer : Summarizer) (id : String) (now : Time) where
  over_trigger-fits :
      (messages : List Message) (extra : ℕ) (budget : ℤ) (allow : Bool) (model : String)
      → fits_in s summarizer id now extra budget messages ≡ true
      → over_trigger s summarizer id now messages extra budget allow model ≡ (messages, none)
  unfolding over_trigger
  over_trigger-fits messages extra budget allow model fit =
      rw (nothing_leaves (fits_in s summarizer id now extra budget) messages fit)

  -- A ratio of 1 or less never changes what is sent, for a budget that a float holds exactly: the
  -- window removes nothing until the estimate passes the whole budget, so the earlier trigger of
  -- compaction has no effect.
  pub ratio_has_no_effect :
      (messages : List Message) (extra : ℕ) (budget : ℤ) (ratio : Ratio) (allow : Bool)
      (model : String)
      → pos_part budget < 2 ^ 53
      → pos 0 <ℤ ratio.num
      → pos_part ratio.num ≤ ratio.den
      → apply_window s summarizer id now messages extra budget ratio allow model
        ≡ apply_window s summarizer id now messages extra budget whole allow model
  unfolding apply_window
  ratio_has_no_effect messages extra budget ratio allow model exact is_pos small =
      let before = window_tokens s summarizer id now messages extra in
      elim (Bool-cases (leb_ℤ budget (pos 0))) [
        | inl off ↦ rw off refl
        | inr on ↦
            let up : pos 0 <ℤ budget = ground (arith, on) in
            pick (leb_ℤ budget (pos 0) || is_empty messages)
              (below_trigger before budget (or_whole ratio)) (below_trigger before budget whole)
              (messages, none) (over_trigger s summarizer id now messages extra budget allow model)
              (λ t. fits-below_trigger before budget exact up (
                below_trigger-fits before budget (or_whole ratio) exact up
                  (subst (λ r. pos 0 <ℤ r.num) (sym (kept_ratio ratio is_pos)) is_pos)
                  (subst (λ r. pos_part r.num ≤ r.den) (sym (kept_ratio ratio is_pos)) small) t))
              (λ f u.
                over_trigger-fits messages extra budget allow model
                  (below_trigger-fits before budget whole exact up (omega arith) (omega arith) u))
      ]

  -- A result of the window that truncates: as it was, or cut as far as it had to be.
  pub data IsTruncation (messages : List Message) (extra : ℕ) (budget : ℤ)
      : List Message × Option CompactionInfo → Type 0 where
    switched_off : budget ≤ℤ pos 0 → IsTruncation messages extra budget (messages, none)
    nothing_there : messages ≡ [] → IsTruncation messages extra budget (messages, none)
    fits :
        window_tokens s summarizer id now messages extra ≤ℤ budget
        → IsTruncation messages extra budget (messages, none)
    stuck :
        take_oldest (context_blocks messages) ≡ none
        → IsTruncation messages extra budget (messages, none)
    cut :
        (k : ℕ) {out : List Message} {info : CompactionInfo}
        → budget <ℤ window_tokens s summarizer id now messages extra
        → out ≡ flatten_blocks (split_at k (context_blocks messages)).0
        → info.tokens_before ≡ window_tokens s summarizer id now messages extra
        → info.tokens_after ≡ window_tokens s summarizer id now out extra
        → info.messages_removed ≡ length (flatten_blocks (split_at k (context_blocks messages)).1)
        → 0 < info.messages_removed
        → info.summarized ≡ false
        → (info.tokens_after ≤ℤ budget)
          ⊎ (take_oldest (split_at k (context_blocks messages)).0 ≡ none)
        → IsTruncation messages extra budget (out, some info)

  over_trigger-IsTruncation :
      (messages : List Message) (extra : ℕ) (budget : ℤ) (model : String)
      → IsTruncation messages extra budget
          (over_trigger s summarizer id now messages extra budget false model)
  unfolding over_trigger compacted
  over_trigger-IsTruncation messages extra budget model =
      let fit = fits_in s summarizer id now extra budget in
      elim (Bool-cases (fit messages)) [
        | inl enough ↦
            subst (IsTruncation messages extra budget)
              (sym (over_trigger-fits messages extra budget false model enough))
              (fits (ground (arith, enough)))
        | inr short ↦
            let (k, least, e) = remove_oldest_blocks-IsRemoval fit messages in
            elim (Bool-cases (is_empty (remove_oldest_blocks fit messages).1)) [
              | inl nothing ↦ rw nothing (
                  stuck
                    (nothing_goes fit messages k least short (is_empty-removed _ _ _ e nothing)))
              | inr some_go ↦ rw some_go (
                  cut k (ground (arith, short)) (ap (λ (p : List Message × List Message). p.0) e)
                    refl refl (ap (λ (p : List Message × List Message). length p.1) e)
                    (not_empty _ some_go) refl
                    (rw e (elim least.stops [ inl h ↦ inl (ground (arith, h)) | inr n ↦ inr n ])))
            ]
      ]

  -- Without a summary, with a ratio of 1 or less and a budget that a float holds exactly, the window sends the
  -- history as it was only where the budget is off, the estimate is within it, or only blocks of the system and the
  -- last block are there. Otherwise it sends the history without the first removable blocks, at least one message
  -- less, with a true report; then what it sends is within the budget, unless no more may go.
  pub apply_window-IsTruncation :
      (messages : List Message) (extra : ℕ) (budget : ℤ) (ratio : Ratio) (model : String)
      → pos_part budget < 2 ^ 53
      → pos 0 <ℤ ratio.num
      → pos_part ratio.num ≤ ratio.den
      → IsTruncation messages extra budget
          (apply_window s summarizer id now messages extra budget ratio false model)
  unfolding apply_window
  apply_window-IsTruncation messages extra budget ratio model exact is_pos small =
      let before = window_tokens s summarizer id now messages extra in
      elim (Bool-cases (leb_ℤ budget (pos 0))) [
        | inl off ↦ rw off (switched_off (ground (arith, off)))
        | inr on ↦ elim (Bool-cases (is_empty messages)) [
          | inl nothing ↦ rw (on, nothing) (nothing_there (empty-nil messages nothing))
          | inr something ↦ elim (Bool-cases (below_trigger before budget (or_whole ratio))) [
            | inl below ↦
                rw (on, something, below)
                  (fits (
                    ground (
                      arith,
                      below_trigger-fits before budget (or_whole ratio) exact (ground (arith, on))
                          (subst (λ r. pos 0 <ℤ r.num) (sym (kept_ratio ratio is_pos)) is_pos)
                          (subst (λ r. pos_part r.num ≤ r.den) (sym (kept_ratio ratio is_pos))
                            small)
                          below,
                    )))
            | inr above ↦
                rw (on, something, above) (over_trigger-IsTruncation messages extra budget model)
          ]
        ]
      ]

inject-parts :
    (m : Message) (ms : List Message)
    → (before after : List Message) × (ms ≡ before ++ after)
      × (inject m ms ≡ before ++ m ∷ after)
      × All (λ n. is_system n.role ≡ true) before
      × ((n : Message) (rest : List Message) → after ≡ n ∷ rest → is_system n.role ≡ false)
unfolding inject
inject-parts m [] = ([], [], refl, refl, tt, λ n rest e. cc)
inject-parts m (x ∷ xs) = elim (Bool-cases (is_system x.role)) [
  | inl system ↦
      let (before, after, whole_list, injected, all, next) = inject-parts m xs in
      (
        x ∷ before,
        after,
        ap (λ (t : List Message). x ∷ t) whole_list,
        rw (system, inject) (ap (λ (t : List Message). x ∷ t) injected),
        (system, all),
        next,
      )
  | inr plain ↦ ([], x ∷ xs, refl, rw (plain, inject), tt, λ n rest e. ground arith)
]

-- A summary is one message of the system, put behind the leading messages of the system and before
-- all others; the other messages stay as they were.
pub inject_summary-parts :
    (id : String) (now : Time) (ms : List Message) (summary : Bytes)
    → (before after : List Message) × (ms ≡ before ++ after)
      × (inject_summary id now ms summary ≡ before ++ summary_message id now summary ∷ after)
      × All (λ n. is_system n.role ≡ true) before
      × ((n : Message) (rest : List Message) → after ≡ n ∷ rest → is_system n.role ≡ false)
unfolding inject_summary
inject_summary-parts id now ms summary = inject-parts (summary_message id now summary) ms
