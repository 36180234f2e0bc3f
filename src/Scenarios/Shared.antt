-- ===== src/Scenarios/Shared.antt =====
-- Two goroutines share a new client, over a VCD that gives every login the same token.
use hbs_queue.Errors.{ok}
use hbs_queue.Prelude.{ℕ, suc, ◌≤◌, ◌<◌, ◌≡◌, refl, some, none, [], codes, String}
use hbs_queue.Vcd.Client.{new_http_client, HttpResponse, Platform, Client, get_token, take_token}
use hbs_queue.Vcd.Shared.Alone.{Ends, run_alone}
use hbs_queue.Vcd.Shared.Mutex.{rank}
use hbs_queue.Vcd.Shared.Safety.{HasToken, holder_unique, logins_bounded, unlocks}
use hbs_queue.Vcd.Shared.{
  Shared, Pc, idle, checking, asking, answered, leaving, session, Move, lock, prepare, login,
  accept, System, moved, pick, init, Reach, start, later,
}

abbrev welcome : HttpResponse
welcome = record { status_code = 200; access_token = "tok"; body = []; read_error = none }

abbrev vcd : Platform ℕ
vcd = record {
  request_error = λ method url. none;
  send = λ client req n. (suc n, ok welcome);
  rand_int = λ max n. (n, none);
  wait = λ d n. (n, none);
  encode_query = λ q. [];
}

abbrev client : Client
client = record {
  base_url = codes "https://vcd.test";
  version = codes "38.1";
  username = codes "admin";
  password = codes "secret";
  org = codes "System";
  token = "";
  http_client = new_http_client;
}

abbrev at_start : System vcd
at_start = init vcd 0 client

abbrev shared : (sent logins : ℕ) → String → Shared ℕ
shared sent logins token = record {
  net = sent;
  client = record client { token = token };
  holder = some 3;
  logins = logins;
  clears = 0;
}

-- Goroutine 3 has taken `p` since `s`.
abbrev then_at : System vcd → Shared ℕ → Pc → System vcd
then_at s m p = record { shared = m; pc = moved vcd s.pc 3 p }

abbrev locked : System vcd
locked = then_at at_start (shared 0 0 "") checking

locked-Reach : Reach vcd 0 client locked
locked-Reach = later start (pick 3 (lock refl))

abbrev asked : System vcd
asked = then_at locked (shared 0 0 "") asking

abbrev told : System vcd
told = then_at asked (shared 1 0 "") (answered (ok welcome))

abbrev logged_in : System vcd
logged_in = then_at told (shared 1 1 "tok") (leaving (ok "tok"))

told-Reach : Reach vcd 0 client told
told-Reach = later (later locked-Reach (pick 3 (prepare refl refl))) (pick 3 login)

logged_in-Reach : Reach vcd 0 client logged_in
unfolding take_token
logged_in-Reach = later told-Reach (pick 3 (accept {resp = welcome} refl))

holder_unique_example : ◌≡◌ {A = ℕ} 3 3
holder_unique_example = holder_unique vcd locked 3 3 locked-Reach tt tt

logins_bounded_example : (1 ≤ 1) × ((i : ℕ) → HasToken (logged_in.pc i))
logins_bounded_example = logins_bounded vcd logged_in logged_in-Reach

unlocks_example : (m : Shared ℕ) × (p : Pc) × Move vcd locked.shared 3 checking m p × (rank p < 4)
unlocks_example = unlocks vcd locked 3 locked-Reach refl

abbrev unused : Shared ℕ
unused = record { net = 0; client = client; holder = none; logins = 0; clears = 0 }

run_alone_example : Ends vcd unused 3 idle (get_token vcd (session unused))
run_alone_example = run_alone vcd unused 3 refl
