-- ===== src/Context/Tests.antt =====
-- include/network/Context.h at concrete inputs.
use fluent_net.Prelude.{◌≡◌, ◌≢◌, refl, [], ◌∷◌, ◌++◌, arith}
use fluent_net.Buffer.{sent}
use fluent_net.Context.{send}
use fluent_net.Context.Stream.{pipeline, pipeline-send, send_overtakes}
use fluent_net.Context.Samples.{busy, accept_all}

pipeline-send_example :
    pipeline (send (1 ∷ 2 ∷ 3 ∷ []) (sent 1) accept_all busy).1 ≡ 1 ∷ 7 ∷ 8 ∷ 9 ∷ 2 ∷ 3 ∷ []
pipeline-send_example =
    pipeline-send (1 ∷ 2 ∷ 3 ∷ []) 1 accept_all busy refl (omega arith) (omega arith) (omega arith)

send_overtakes_example :
    pipeline (send (1 ∷ 2 ∷ []) (sent 1) accept_all busy).1 ≢ pipeline busy ++ (1 ∷ 2 ∷ [])
send_overtakes_example =
    send_overtakes 7 1 0 (8 ∷ 9 ∷ []) (2 ∷ []) accept_all busy refl (omega arith) (omega arith)
      (omega arith) refl (omega arith)
