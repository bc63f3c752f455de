-- ===== src/Longjing/Fixtures.antt =====
-- A small world that the tests share: one request, a provider that answers or fails, and a snarkjs that
-- accepts everything.
use zk_api.Common.{ℕ, ◌+◌, true, Option, none, some, List, [], ◌∷◌}
use zk_api.Common.Text.{Text, codes}
use zk_api.Accumulator
use zk_api.EthRate.{Feeds, failed}
use zk_api.Exceptions.{Signature}
use zk_api.Common.Int.{pos}
use zk_api.Longjing.{LongjingRequest, Answer, Env, World, Checked}
use zk_api.Nullifiers.{StoredSignal}
use zk_api.Pricing.Claude.{haiku_4_5}
use zk_api.Verifier.{proof, answered}

abbrev pub triple : List Text
triple = codes "1" ∷ codes "2" ∷ codes "1" ∷ []

abbrev pub point : ℕ → ℕ → Accumulator.Point
point x y = record { x = x; y = y }

abbrev pub some_signature : Signature
some_signature = record { r8x = codes "2"; r8y = codes "3"; s = codes "4" }

abbrev pub feeds : Feeds
feeds = record { now = 1000; saved_at = 1001; kraken = failed; chainlink = some (pos 250000000000) }

abbrev pub short_answer : Answer
short_answer = record { content = codes "hello"; input_tokens = 10; output_tokens = 5 }

abbrev pub env_with : Option Answer → Env
env_with answer = record {
  sha256 = λ text. 5;
  poseidon = λ a b. a + b;
  c_max = some 100000000000000000;
  verifier_env = record {
    is_prod = true;
    snarkjs_available = true;
    parse_json = λ text. proof (record {
      protocol = "groth16";
      pi_a = triple;
      pi_b = triple ∷ triple ∷ [];
      pi_c = triple;
    });
    is_known_root = λ root. answered true;
    server_key_x = codes "3";
    server_key_y = codes "4";
    groth16_verify = λ signals p. some true;
  };
  worst_case_feeds = feeds;
  actual_feeds = feeds;
  provider = λ payload model. answer;
  sign = λ next. some some_signature;
  generators = record { g = point 2 3; j = point 3 4; k = point 4 5; h = point 5 6 };
  chain = record { enabled = true; confirmed = λ key. true };
  rate_limit_at = 900;
  recalled_at = 2000;
  kept_at = 1500;
}

abbrev pub request : LongjingRequest
request = record {
  payload = codes "hi";
  nonce = codes "7";
  nullifier = codes "17";
  signal_x = codes "12";
  signal_y = codes "9";
  proof = codes "{\"pi_a\":[]}";
  merkle_root = codes "0xff";
  accumulator_x = codes "0";
  accumulator_y = codes "1";
  model = some "claude-haiku-4-5";
}

abbrev pub signal : StoredSignal
signal = record { x = codes "12"; y = codes "9" }

abbrev pub checked : Checked
checked = record { model = haiku_4_5; nullifier = codes "17"; c_max = 100000000000000000 }

abbrev pub world : World
world = record {
  store = record { nullifiers = []; nullifier_attempts = []; responses = [] };
  verifier = record {
    verification_count = 0;
    successful_verifications = 0;
    failed_verifications = 0;
    verification = record { max = 8; active = 0 };
  };
  oracle = record { cache = none; eth_rates = [] };
  sent = [];
  provider_calls = 0;
}

abbrev pub serving : Env
serving = env_with (some short_answer)

abbrev pub down : Env
down = env_with none
