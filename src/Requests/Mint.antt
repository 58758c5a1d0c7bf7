-- ===== src/Requests/Mint.antt =====
-- The ids of requests are different (host-core/src/sandbox_request.rs).
use text.Mathlib.TextLemmas.{append_cancel_left, append-nil}
use riscdom.Prelude.{String, [], arith, sym, ℕ, ◌<◌, ◌^◌, ◌∙◌, ◌∷◌, ◌≡◌}
use riscdom.Prelude.Text.{concat, show_nat}
use riscdom.Prelude.Decimal.{show_nat-injective}
use riscdom.Requests.{mint}

mint-cancel :
    (pid s t : String)
    → concat ("req-" ∷ pid ∷ "-" ∷ s ∷ []) ≡ concat ("req-" ∷ pid ∷ "-" ∷ t ∷ [])
    → s ≡ t
mint-cancel pid s t e =
    sym (append-nil s)
    ∙ append_cancel_left "-" _ _ (append_cancel_left pid _ _ (append_cancel_left "req-" _ _ e))
    ∙ append-nil t

pub mint-injective :
    (pid : String) (m n : ℕ) → m < 2 ^ 64 → n < 2 ^ 64 → mint pid m ≡ mint pid n → m ≡ n
mint-injective pid m n small_m small_n e =
    show_nat-injective m n (omega arith) (omega arith) (mint-cancel pid (show_nat m) (show_nat n) e)
