-- ===== src/ContainerImage/Publishing.antt =====
-- When an image is pushed.
use turnfly.Prelude.{
  ◌≡◌, ◌≢◌, refl, ◌⊎◌, inl, inr, Option, none, some, List, ◌∷◌, Option-cases, arith,
}
use turnfly.Text.{Bytes, codes}
use turnfly.ContainerImage.{
  Message, PublishConfig, PublishError, EngineCall, EngineReply, Run, refusal, or_default,
  read_answer, call_engine, build_of, push_of, build_and_push,
}

module _ (decode_message : Bytes → Option Message)
    (engine : List EngineCall → EngineCall → EngineReply) (tar_context : Bytes → Option Bytes)
    (auth_header : Bytes → Bytes) (cfg : PublishConfig) (run : Run) where
  abbrev result : Run × Option PublishError
  result = build_and_push decode_message engine tar_context auth_header cfg run

  abbrev build : Bytes → EngineCall
  build = build_of decode_message engine tar_context auth_header cfg

  -- The tar stream of the build context.
  abbrev context_of : Option Bytes
  context_of = tar_context (or_default cfg.context_dir (codes "."))

  abbrev push : EngineCall
  push = push_of decode_message engine tar_context auth_header cfg

  -- The configuration is refused or there is no build context: nothing is sent, and there is an
  -- error.
  pub record Refuses : Type 0 where
    pub reason : (refusal cfg ≢ none) ⊎ (context_of ≡ none)
    pub calls : result.0.calls ≡ run.calls
    pub fails : result.1 ≢ none

  -- The build of an accepted configuration is sent, and its answer is the error of the result.
  pub record BuildFails : Type 0 where
    pub archive : Bytes
    pub context : context_of ≡ some archive
    pub accepted : refusal cfg ≡ none
    pub calls : result.0.calls ≡ build archive ∷ run.calls
    pub answer : result.1 ≡ (read_answer decode_message (engine run.calls (build archive))).1
    pub fails : result.1 ≢ none

  -- The build succeeds, and the push is sent; the result is that of its answer.
  pub record Pushes : Type 0 where
    pub archive : Bytes
    pub context : context_of ≡ some archive
    pub accepted : refusal cfg ≡ none
    pub built : (read_answer decode_message (engine run.calls (build archive))).1 ≡ none
    pub calls : result.0.calls ≡ push ∷ build archive ∷ run.calls
    pub answer : result.1 ≡ (read_answer decode_message (engine (build archive ∷ run.calls) push)).1

  -- Without a complete configuration for the registry and a build context nothing is sent; with
  -- both, the build is sent, the image is pushed only after a build that succeeded, and
  -- BuildAndPush succeeds only if both did.
  pub build_and_push_lem : Refuses ⊎ (BuildFails ⊎ Pushes)
  unfolding build_and_push call_engine
  build_and_push_lem = elim (Option-cases (refusal cfg)) [
    | inr (e, f) ↦ inl (record {
      reason = inl (λ h. ground (arith, h, f));
      calls = rw (f, build_and_push) refl;
      fails = λ h. ground (arith, h, f);
    })
    | inl f ↦ elim (Option-cases (tar_context (or_default cfg.context_dir (codes ".")))) [
      | inl g ↦ inl (record {
        reason = inr g;
        calls = rw (f, build_and_push) (rw g refl);
        fails = λ h. ground (arith, h, f, g);
      })
      | inr (archive, g) ↦
          elim (Option-cases (read_answer decode_message (engine run.calls (build archive))).1) [
            | inr (e, b) ↦ inr (
                inl (record {
                  archive = archive;
                  context = g;
                  accepted = f;
                  calls = rw (f, build_and_push) (rw (g, b) refl);
                  answer = rw (f, build_and_push) (rw (g, b) refl);
                  fails = λ h. ground (arith, h, f, g, b);
                }))
            | inl b ↦ inr (
                inr (record {
                  archive = archive;
                  context = g;
                  accepted = f;
                  built = b;
                  calls = rw (f, build_and_push) (rw (g, b) refl);
                  answer = rw (f, build_and_push) (rw (g, b) refl);
                }))
          ]
    ]
  ]
