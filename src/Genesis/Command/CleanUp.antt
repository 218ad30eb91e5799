-- ===== src/Genesis/Command/CleanUp.antt =====
-- What a run of the generator has done where it ends, and what becomes of the artifacts that it has
-- downloaded.
use mathlib.Core.List.{append-nil, append_assoc}
use supersim.Prelude.{
  ◌≡◌, ◌≢◌, ◌⊎◌, refl, sym, ap, ◌∙◌, List, [], ◌∷◌, ◌++◌, map, ok, err, returns, fails, arith,
  External-cases, inl, inr, from_external,
}
use supersim.Prelude.Calls.Follows.{Follows, Follows-nothing, Follows-then, Follows-at_once}
use Prim.Native.String.{String}
use supersim.Prelude.Text.{Text}
use supersim.Genesis.CliConfig.{Artifacts, monorepo, periphery, Paths, CliConfig, parse_cli_config}
use supersim.Genesis.Command.{
  Step, download, clean_up, generate, write_file, World, Outcome, Run, did, write_all, files_of,
  write_world, with_artifacts, worldgen_main, write_failed, generation_failed,
}

module _ {U : Type 0} (outcome : Outcome U) where
  -- The clean-ups that a run of steps leaves to be done: one to each download that succeeded, the
  -- last one first.
  abbrev pub closing : List (Step U) → List (Step U)
  closing [] = []
  closing (download a url ∷ steps) = elim (outcome.download a url) [
    | returns u ↦ closing steps ++ clean_up a ∷ []
    | fails e ↦ closing steps
  ]
  closing (clean_up a ∷ steps) = closing steps
  closing (generate ∷ steps) = closing steps
  closing (write_file f ∷ steps) = closing steps

  -- The work is a plan or the first part of it, as there is an error or none; and just the clean-ups
  -- that this work asks for come after it.
  abbrev IsTidy : Run U → List (Step U) → Type 0
  IsTidy m plan =
      (steps : List (Step U))
      → (m steps ≡ (ok tt, steps ++ (plan ++ closing plan)))
        ⊎ (((m steps).0 ≢ ok tt)
            × ((work : List (Step U)) × (rest : List (Step U)) × (plan ≡ work ++ rest)
                × ((m steps).1 ≡ steps ++ (work ++ closing work))))

  -- The steps that come once both sets of artifacts are there.
  abbrev pub writing : CliConfig U → List (Step U)
  writing cfg = elim outcome.generate [
    | fails e ↦ generate ∷ []
    | returns w ↦ generate ∷ map write_file (files_of outcome cfg.outdir w)
  ]

  write_all-Follows : (fs : List Text) → Follows (write_all outcome fs) (map write_file fs)
  unfolding write_all
  write_all-Follows [] = Follows-nothing
  write_all-Follows (f ∷ fs) =
      Follows-then (did (write_file f) (from_external (write_failed f) (outcome.write f)))
        (write_all outcome fs) (write_file f ∷ []) (map write_file fs)
        (Follows-at_once (from_external (write_failed f) (outcome.write f)) (write_file f ∷ []))
        (write_all-Follows fs)

  files-closing :
      (fs : List Text) (work rest : List (Step U))
      → map write_file fs ≡ work ++ rest
      → closing work ≡ []
  files-closing fs [] rest e = refl
  files-closing [] (s ∷ work) rest e = absurd (ground arith)
  files-closing (f ∷ fs) (s ∷ work) rest e =
      let first : write_file f ≡ s = cc in
      let tail : map write_file fs ≡ work ++ rest = cc in
      rw (← first) (files-closing fs work rest tail)

  all_files-closing : (fs : List Text) → closing (map write_file fs) ≡ []
  all_files-closing [] = refl
  all_files-closing (f ∷ fs) = all_files-closing fs

  write_world-generated :
      (outdir : Text) (w : World) (steps : List (Step U))
      → outcome.generate ≡ returns w
      → write_world outcome outdir steps
        ≡ write_all outcome (files_of outcome outdir w) (steps ++ generate ∷ [])
  unfolding write_world
  write_world-generated outdir w steps q = simp q

  write_world-failed :
      (outdir : Text) (e : String) (steps : List (Step U))
      → outcome.generate ≡ fails e
      → write_world outcome outdir steps ≡ (err (generation_failed e), steps ++ generate ∷ [])
  unfolding write_world
  write_world-failed outdir e steps q = simp q

  write_world-IsTidy : (cfg : CliConfig U) → IsTidy (write_world outcome cfg.outdir) (writing cfg)
  write_world-IsTidy cfg steps = elim (External-cases outcome.generate) [
    | inr (e, q) ↦
        let ends = write_world-failed cfg.outdir e steps q in
        let plan : writing cfg ≡ generate ∷ [] = ground (arith, q) in
        inr (λ h. ground (arith, ends, h), (generate ∷ [], [], plan, ground (arith, ends)))
    | inl (w, q) ↦
        let files : List Text = files_of outcome cfg.outdir w in
        let goes_on = write_world-generated cfg.outdir w steps q in
        let plan : writing cfg ≡ generate ∷ map write_file files = ground (arith, q) in
        elim (write_all-Follows files (steps ++ generate ∷ [])) [
          | inl p ↦ inl (
              goes_on
              ∙ p
              ∙ ap (λ (l : List (Step U)). (ok tt, l))
                  (append_assoc steps (generate ∷ []) (map write_file files)
                    ∙ ap (λ l. steps ++ generate ∷ l) (sym (append-nil (map write_file files)))
                    ∙ ap (λ l. steps ++ generate ∷ (map write_file files ++ l))
                        (sym (all_files-closing files))
                    ∙ ap (λ l. steps ++ (l ++ closing l)) (sym plan)))
          | inr (failed, (done, rest, split, does)) ↦ inr (
            λ h. failed (ap (λ r. r.0) (sym goes_on) ∙ h),
            (
              generate ∷ done,
              rest,
              plan ∙ ap (λ l. generate ∷ l) split,
              ap (λ r. r.1) goes_on
                  ∙ does
                  ∙ append_assoc steps (generate ∷ []) done
                  ∙ ap (λ l. steps ++ generate ∷ l) (sym (append-nil done))
                  ∙ ap (λ l. steps ++ generate ∷ (done ++ l))
                      (sym (files-closing files done rest split)),
            ),
          )
        ]
  ]

  closing-downloaded :
      (a : Artifacts) (url : U) (work : List (Step U))
      → outcome.download a url ≡ returns tt
      → closing (download a url ∷ work) ≡ closing work ++ clean_up a ∷ []
  closing-downloaded a url work q = ground (arith, q)

  -- The steps of a run inside, with a download before and its clean-up after.
  around :
      (a : Artifacts) (url : U) (steps work : List (Step U))
      → outcome.download a url ≡ returns tt
      → ((steps ++ download a url ∷ []) ++ (work ++ closing work)) ++ clean_up a ∷ []
        ≡ steps ++ (download a url ∷ (work ++ closing (download a url ∷ work)))
  around a url steps work q =
      append_assoc (steps ++ download a url ∷ []) (work ++ closing work) (clean_up a ∷ [])
      ∙ append_assoc steps (download a url ∷ []) ((work ++ closing work) ++ clean_up a ∷ [])
      ∙ ap (λ l. steps ++ download a url ∷ l) (append_assoc work (closing work) (clean_up a ∷ []))
      ∙ ap (λ l. steps ++ download a url ∷ (work ++ l)) (sym (closing-downloaded a url work q))

  with_artifacts-IsTidy :
      (a : Artifacts) (url : U) (rest : Run U) (plan : List (Step U))
      → IsTidy rest plan
      → IsTidy (with_artifacts outcome a url rest) (download a url ∷ plan)
  unfolding with_artifacts
  with_artifacts-IsTidy a url rest plan h steps = elim (External-cases (outcome.download a url)) [
    | inr (e, q) ↦
        let closes : closing (download a url ∷ []) ≡ [] = ground (arith, q) in
        inr (
          simp q (λ r. cc),
          (
            download a url ∷ [],
            plan,
            refl,
            simp q (ap (λ l. steps ++ download a url ∷ l) (sym closes)),
          ),
        )
    | inl (u, q) ↦ elim (h (steps ++ download a url ∷ [])) [
      | inl p ↦
          inl (simp (q, p) (ap (λ (l : List (Step U)). (ok tt, l)) (around a url steps plan q)))
      | inr (failed, (work, left, split, does)) ↦ inr (
        simp q failed,
        (
          download a url ∷ work,
          left,
          ap (λ l. download a url ∷ l) split,
          simp q (ap (λ l. l ++ clean_up a ∷ []) does ∙ around a url steps work q),
        ),
      )
    ]
  ]

  -- All that there is to do: the two downloads, the generation, and of the world that comes out the
  -- L1's genesis, the addresses of each L2 and the genesis of each L2.
  abbrev pub plan : CliConfig U → List (Step U)
  plan cfg =
      download monorepo cfg.monorepo_artifacts_url
      ∷ download periphery cfg.periphery_artifacts_url
      ∷ writing cfg

  -- Where the configuration is read: the command that ends without an error has done all that there
  -- is to do, in the order of the plan; any other has done the first part of it; and in either case
  -- the artifacts that were downloaded, and no others, are then cleaned up, each once and the last
  -- one first.
  pub worldgen_main_order :
      (paths : Paths U) (monorepo_artifacts periphery_artifacts outdir : Text) (cfg : CliConfig U)
      → parse_cli_config paths monorepo_artifacts periphery_artifacts outdir ≡ ok cfg
      → let (r, steps) =
          worldgen_main outcome paths monorepo_artifacts periphery_artifacts outdir [] in
        ((r ≡ ok tt) × (steps ≡ plan cfg ++ closing (plan cfg)))
        ⊎ ((r ≢ ok tt)
            × ((work : List (Step U)) × (rest : List (Step U)) × (plan cfg ≡ work ++ rest)
                × (steps ≡ work ++ closing work)))
  unfolding worldgen_main
  worldgen_main_order paths m p outdir cfg q =
      let inner : Run U =
        with_artifacts outcome periphery cfg.periphery_artifacts_url
          (write_world outcome cfg.outdir) in
      let tidy =
        with_artifacts-IsTidy monorepo cfg.monorepo_artifacts_url inner
          (download periphery cfg.periphery_artifacts_url ∷ writing cfg)
          (with_artifacts-IsTidy periphery cfg.periphery_artifacts_url
            (write_world outcome cfg.outdir) (writing cfg) (write_world-IsTidy cfg))
          [] in
      simp q (elim tidy [
        | inl done ↦ inl (ap (λ x. x.0) done, ap (λ x. x.1) done)
        | inr part ↦ inr part
      ])
