-- ===== src/Presets/Elastic/Ingest.antt =====
-- When an initialization of elasticsearch ends, and what a successful one has seen.
use gnomock.Base.{
  ◌%◌, ◌^◌, ◌+◌, none, some, ℕ, Option, ◌≤◌, ℤ, lit, Text, ◌≡◌, inl, true, arith, ◌++◌, suc, inr,
  ◌≢◌, refl, Bool-cases, ◌∷◌, ap, sym, ◌∙◌, zero,
}
use gnomock.Engine.Actions.{
  stuck, ok, Result, wrapping, given, ask, fail, Reply-cases, ended, returned, refused, panicked,
  hung,
}
use gnomock.Engine.{World, Context, History, select}
use gnomock.Presets.Elastic.{
  P, Client, initf, connect, await_docs, total_doc_count, unless_error, ingest_seed_files,
  stats_call, default_addr,
}
use gnomock.Engine.Quiet.{Quiet, wrapping-Quiet, closing-Quiet, given-Quiet, bind-Quiet}
use gnomock.Docker.Client.{select_done}
use mathlib.Core.Path.{subst}
use gnomock.Container.{Container}
use gnomock.Engine.Trace.{rounds}
use gnomock.Presets.Elastic.Sending.{FilesIndexed, ingest_seed_files-FilesIndexed}
use gnomock.Errors.{plain}
use gnomock.Base.Int.{wrap_int64, int_eq, int_eq_iff}
use gnomock.Engine.Success.{bind-ok, wrapping-ok}

zero_word : (k n : ℕ) → k ≡ (0 + n) % 2 ^ 64 → k ≡ n % 2 ^ 64
zero_word k n e = omega arith

module _ (w : World) (s : Client) (ctx : Context) where
  counted_after :
      (h : History)
      → Quiet (wrapping (lit "invalid output for index stats") (λ g. given (s.decodes_count g) g)) h
  counted_after h =
      wrapping-Quiet (lit "invalid output for index stats") (λ g. given (s.decodes_count g) g) h
        (given-Quiet (s.decodes_count h) h)

  counted-Quiet :
      (response : Option Text) (h : History)
      → Quiet
          (unless_error s
            (lit "invalid response for index status")
            (wrapping (lit "invalid output for index stats") (λ g. given (s.decodes_count g) g))
            response)
          h
  unfolding unless_error
  counted-Quiet none h =
      closing-Quiet s.close_body
        (wrapping (lit "invalid output for index stats") (λ g. given (s.decodes_count g) g)) h
        (counted_after h)
  counted-Quiet (some text) h =
      closing-Quiet s.close_body
        (fail {A = ℤ} (plain (lit "invalid response for index status" ++ (lit ": " ++ text)))) h
        (λ e. ground arith, refl)

  asked-Quiet :
      (h : History) → Quiet (wrapping (lit "failed to get index status") (ask stats_call s.stats)) h
  unfolding stats_call
  asked-Quiet h = elim (Reply-cases (s.stats h)) [
    | inl (a, p) ↦ (λ e. ground arith, ground arith)
    | inr (x, p) ↦ (λ e. ground arith, ground arith)
  ]

  total-Quiet : (h : History) → Quiet (wrapping (lit "can't count docs") (total_doc_count s)) h
  unfolding total_doc_count
  total-Quiet h = wrapping-Quiet (lit "can't count docs") (total_doc_count s) h (
      bind-Quiet (wrapping (lit "failed to get index status") (ask stats_call s.stats))
        (unless_error s (lit "invalid response for index status")
          (wrapping (lit "invalid output for index stats") (λ g. given (s.decodes_count g) g)))
        h (asked-Quiet h) (λ response g. counted-Quiet response g))

  -- If the context is done after `n` rounds, then fuel for `n` rounds more than those already made
  -- is enough for the loop to return.
  pub await_docs-ends :
      (n : ℕ)
      → ((h : History) → n ≤ rounds h → w.done ctx h ≡ true)
      → (fuel : ℕ) (expected : ℤ) (h : History) → n ≤ fuel + rounds h
      → (await_docs s w ctx (suc fuel) expected h).0 ≢ stuck
  unfolding await_docs select_done
  await_docs-ends n over zero expected h le e = ground (arith, over h (omega arith))
  await_docs-ends n over (suc fuel) expected h le e =
      let (returns, quiet) = total-Quiet (select ctx ∷ h) in
      elim (Bool-cases (w.done ctx h)) [
        | inl found ↦ absurd (ground arith)
        | inr early ↦
            elim (ended (wrapping (lit "can't count docs") (total_doc_count s) (select ctx ∷ h))) [
              | returned k g p ↦
                  let kept : rounds g ≡ suc (rounds h) =
                    ap (λ (m : Result ℤ × History). rounds m.1) (sym p) ∙ quiet in
                  elim (Bool-cases (int_eq k expected)) [
                    | inl same ↦ absurd (ground arith)
                    | inr other ↦
                        await_docs-ends n over fuel expected g (omega arith) (ground arith)
                  ]
              | refused x g p ↦ absurd (ground arith)
              | panicked g p ↦ absurd (ground arith)
              | hung g p ↦ absurd (ground arith)
            ]
      ]

  await_docs-rounds :
      (n : ℕ)
      → ((h : History) → n ≤ rounds h → w.done ctx h ≡ true)
      → (fuel : ℕ) (expected : ℤ) (h : History) → rounds h ≤ n
      → rounds (await_docs s w ctx fuel expected h).1 ≤ suc n
  unfolding await_docs select_done
  await_docs-rounds n over zero expected h le = omega arith
  await_docs-rounds n over (suc fuel) expected h le =
      let (returns, quiet) = total-Quiet (select ctx ∷ h) in
      elim (Bool-cases (w.done ctx h)) [
        | inl found ↦ ground arith
        | inr early ↦
            let soon : suc (rounds h) ≤ n = ground (arith, over h) in
            elim (ended (wrapping (lit "can't count docs") (total_doc_count s) (select ctx ∷ h))) [
              | returned k g p ↦
                  let kept : rounds g ≡ suc (rounds h) =
                    ap (λ (m : Result ℤ × History). rounds m.1) (sym p) ∙ quiet in
                  elim (Bool-cases (int_eq k expected)) [
                    | inl same ↦ ground arith
                    | inr other ↦ ground (arith, await_docs-rounds n over fuel expected g)
                  ]
              | refused x g p ↦
                  let kept : rounds g ≡ suc (rounds h) =
                    ap (λ (m : Result ℤ × History). rounds m.1) (sym p) ∙ quiet in
                  ground arith
              | panicked g p ↦
                  let kept : rounds g ≡ suc (rounds h) =
                    ap (λ (m : Result ℤ × History). rounds m.1) (sym p) ∙ quiet in
                  ground arith
              | hung g p ↦ absurd (ground arith)
            ]
      ]

  -- If the context is done after `n` rounds, and no more than that were made before the wait for the
  -- count begins, then `n` rounds of fuel and one more are enough for the wait to return, and it has
  -- looked at the context at most once more than those `n` times in all.
  pub await_docs-bounded :
      (n : ℕ) (expected : ℤ) (h : History)
      → ((g : History) → n ≤ rounds g → w.done ctx g ≡ true)
      → rounds h ≤ n
      → ((await_docs s w ctx (suc n) expected h).0 ≢ stuck)
        × (rounds (await_docs s w ctx (suc n) expected h).1 ≤ suc n)
  await_docs-bounded n expected h over le = (
    await_docs-ends n over n expected h (omega arith),
    await_docs-rounds n over (suc n) expected h le,
  )

  total_doc_count-calls :
      (k : ℤ) (h g : History) → total_doc_count s h ≡ (ok k, g) → g ≡ stats_call ∷ h
  unfolding total_doc_count unless_error
  total_doc_count-calls k h g e = elim (Reply-cases (s.stats h)) [
    | inr (x, p) ↦ absurd (ground arith)
    | inl (none, p) ↦ elim (Reply-cases (s.decodes_count (stats_call ∷ h))) [
      | inr (x, q) ↦ elim (Reply-cases s.close_body) [
        | inl (v, t) ↦ absurd (ground arith)
        | inr (y, t) ↦ absurd (ground arith)
      ]
      | inl (n, q) ↦ elim (Reply-cases s.close_body) [
        | inl (v, t) ↦ ground arith
        | inr (y, t) ↦ absurd (ground arith)
      ]
    ]
    | inl (some text, p) ↦ elim (Reply-cases s.close_body) [
      | inl (v, t) ↦ absurd (ground arith)
      | inr (y, t) ↦ absurd (ground arith)
    ]
  ]

  -- Rounds of the wait: a look at the context and a request for the count.
  abbrev pub waited : ℕ → History → History
  waited zero h = h
  waited (suc n) h = waited n (stats_call ∷ select ctx ∷ h)

  -- The loop returns without an error only when the last count is the expected one.
  await_docs-ok :
      (fuel : ℕ) (expected : ℤ) (h h' : History)
      → await_docs s w ctx fuel expected h ≡ (ok tt, h')
      → (n : ℕ) × (total_doc_count s (select ctx ∷ waited n h) ≡ (ok expected, h'))
  unfolding await_docs select_done
  await_docs-ok zero expected h h' e = absurd (ground arith)
  await_docs-ok (suc fuel) expected h h' e = elim (Bool-cases (w.done ctx h)) [
    | inl over ↦ absurd (ground arith)
    | inr early ↦ elim (ended (total_doc_count s (select ctx ∷ h))) [
      | returned k g p ↦ elim (Bool-cases (int_eq k expected)) [
        | inl same ↦ (0, ground (arith, int_eq_iff k expected))
        | inr other ↦
            let (n, last) = await_docs-ok fuel expected g h' (ground arith) in
            let now = total_doc_count-calls k (select ctx ∷ h) g p in
            (
              suc n,
              subst (λ x. total_doc_count s (select ctx ∷ waited n x) ≡ (ok expected, h')) now last,
            )
      ]
      | refused x g p ↦ absurd (ground arith)
      | panicked g p ↦ absurd (ground arith)
      | hung g p ↦ absurd (ground arith)
    ]
  ]

  -- A successful initialization has first indexed every document of the preset's files, file by
  -- file, and has then made rounds of the wait, the last of which gave a count that is the number of
  -- the indexed documents, as an `int` of 64 bits.
  pub initf-counted :
      (fuel : ℕ) (p : P) (c : Container) (h h' : History)
      → initf s w ctx fuel p c h ≡ (ok tt, h')
      → (n m : ℕ) × (g : History) × FilesIndexed s w ctx p.inputs h g n
        × (total_doc_count s (select ctx ∷ waited m g) ≡ (ok (wrap_int64 (n % 2 ^ 64)), h'))
  unfolding initf connect
  initf-counted fuel p c h h' e = elim (Reply-cases (s.new_client (default_addr c))) [
    | inr (x, q) ↦ absurd (ground arith)
    | inl (u, q) ↦
        let prefix = lit "seed file ingestion failed" in
        let ingest = ingest_seed_files s w ctx p.inputs 0 in
        let (k, g, r, t) =
          bind-ok (wrapping prefix ingest) (λ count. await_docs s w ctx fuel (wrap_int64 count)) h
            h' tt (ground arith) in
        let (n, files, total) =
          ingest_seed_files-FilesIndexed s w ctx p.inputs 0 k h g (omega arith)
            (wrapping-ok prefix ingest h g k r) in
        let (m, last) = await_docs-ok fuel (wrap_int64 k) g h' t in
        (n, m, g, files, last ∙ ap (λ x. (ok (wrap_int64 x), h')) (zero_word k n total))
  ]
