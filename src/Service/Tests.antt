-- ===== src/Service/Tests.antt =====
-- Runs of the service on small inputs.
use dispatch_web.Base.{nat_eq, string_eq, has, text_is_eq, ◌≡◌, refl, true, false, none, [], ◌∷◌}
use dispatch_web.Service.{AgentService, attach, settle}
use dispatch_web.Service.Admission.{
  Call, attaching, settling, step, run, IsService, run-IsService, run-quiesced,
}

abbrev fresh : AgentService
fresh = record {
  cwd = "/w";
  clients = [];
  pending = [];
  quiesced = false;
  quiesced_at = 0;
  socket_count = 0;
  creations = [];
}

fresh-IsService : IsService fresh
fresh-IsService = record { once = tt; accounted = λ j. refl; apart = λ j h. refl }

abbrev visit : Call
visit = attaching "c" none (λ d. true)

run-IsService_example :
    IsService (run (visit ∷ visit ∷ settling "c" false ∷ visit ∷ settling "c" true ∷ []) fresh)
run-IsService_example =
    run-IsService (visit ∷ visit ∷ settling "c" false ∷ visit ∷ settling "c" true ∷ []) fresh
      fresh-IsService

abbrev draining : AgentService
draining = record fresh { pending = ("c", "/w") ∷ []; creations = "c" ∷ []; quiesced = true }

run-quiesced_example : has "c" draining.creations ≡ true
unfolding run step attach settle
run-quiesced_example = run-quiesced (visit ∷ settling "c" true ∷ []) draining "c" refl refl refl
