-- ===== src/Examples/Solvers.antt =====
-- A remote solver that is never ready.
use go_ddgs_stealth.Common.{ℕ, ◌+◌, refl, true, inr, some, [], ◌∷◌, arith}
use go_ddgs_stealth.Detect.{BlockInfo, generic}
use go_ddgs_stealth.Solver.Remote.{
  Remote, Formats, SolverAccount, two_captcha_solve, cap_solver_solve,
}
use go_ddgs_stealth.Solver.Remote.Polling.{IsClocked, IsAnswered, solves-IsAnswered}

-- The world is the time.
abbrev slow : Remote ℕ
slow = record { now = λ w. (w, w); sleep = λ d w. (true, w + d); ask = λ req w. (inr "{}", w + 1) }

abbrev formats : Formats
formats = record {
  site_keys = (λ body. some "key") ∷ [];
  encode = λ ps. "q";
  marshal_poll = λ key id. "{}";
  marshal_task = λ key task. "{}";
  two_submitted = λ body. inr (record { status = 1; request = "7" });
  two_captcha = λ body. inr (record { status = 1; request = "CAPCHA_NOT_READY" });
  created = λ body. inr (record { error_id = 0; error_text = ""; task_id = "1" });
  polled = λ body. inr (record {
    error_id = 0;
    error_text = "";
    status = "processing";
    g_recaptcha_response = "";
    token = "";
  });
}

-- The intervals are in seconds, the defaults of the solvers.
abbrev account : SolverAccount
account = record { api_key = "k"; base_url = "https://s"; poll_interval = 5; poll_timeout = 120 }

slow-IsClocked : IsClocked slow (λ w. w)
slow-IsClocked = record {
  reads = λ w. refl;
  goes_on = λ w. omega arith;
  waits = λ d w e. omega arith;
  asks = λ req w. omega arith;
}

abbrev block : BlockInfo
block = record { signal = generic; detector_key = "body" }

solves-IsAnswered_example :
    IsAnswered (two_captcha_solve slow formats account 26 "https://d/" block "hcaptcha.com" 0).0
    × IsAnswered (cap_solver_solve slow formats account 26 "https://d/" block "hcaptcha.com" 0).0
solves-IsAnswered_example =
    solves-IsAnswered slow (λ w. w) slow-IsClocked formats account 25 "https://d/" block
      "hcaptcha.com" 0 (omega arith)
