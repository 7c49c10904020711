-- ===== src/Jni/Methods/Served/Histories.antt =====
-- toxNew, close, the collection of an object, toxIteration and the other native methods, in any order.
use tox4j.Base.{ℕ, suc, ◌<◌, ◌≤◌, Bool, true, Option, List, [], ◌∷◌, ◌≡◌, length}
use tox4j.Base.Effect.{ok, M, pure, ◌>>=◌, ◌>>◌}
use tox4j.Core.Enums.{Bytes}
use tox4j.Core.Api.{ToxApi}
use tox4j.Core.State.{PauseReason}
use tox4j.Jni.Events.{CoreEvents}
use tox4j.Jni.Methods.{Table}
use tox4j.Jni.Methods.Connection.{tox_iteration}
use tox4j.Jni.Methods.Creation.{tox_new, tox_kill, tox_finalize}
use tox4j.Jni.Methods.Served.Requests.{Method, method_step}

-- What Java calls. `calls` is any other native method on an instance.
pub data CoreRequest : Type 0 where
  creates : Bool → Option Bytes → Bool → Bool → ℕ → Option Bytes → ℕ → CoreRequest
  kills : ℕ → CoreRequest
  finalizes : ℕ → CoreRequest
  iterates : PauseReason → ℕ → CoreRequest
  calls : ℕ → Method → CoreRequest

module _ {Tox : Type 0} (api : ToxApi Tox) (serialize : CoreEvents → Bytes) where
  unfoldable pub core_step : CoreRequest → M (Table Tox) (Unit {0})
  core_step (creates malloc_works save_data ipv6 udp proxy_type proxy_address proxy_port) =
      tox_new api true malloc_works save_data ipv6 udp proxy_type proxy_address proxy_port >>= λ _.
      pure tt
  core_step (kills n) = tox_kill api n
  core_step (finalizes n) = tox_finalize api n
  core_step (iterates garbage n) = tox_iteration api serialize garbage n >>= λ _. pure tt
  core_step (calls n method) = method_step api n method

  unfoldable pub core_run : List (CoreRequest) → M (Table Tox) (Unit {0})
  unfolding core_step
  core_run [] = pure tt
  core_run (r ∷ rs) = core_step r >> core_run rs

  -- A proxy type and a port that Java can give, and room in the table.
  abbrev pub Admits : CoreRequest → Table Tox → Type 0
  Admits (creates malloc_works save_data ipv6 udp proxy_type proxy_address proxy_port) s =
      (proxy_type < 0x8000_0000) × (proxy_port ≤ 65535) × (suc (length s.instances) < 0x8000_0000)
  Admits r s = Unit {0}

  abbrev pub AdmitsAll : List (CoreRequest) → Table Tox → Type 0
  AdmitsAll [] s = Unit {0}
  AdmitsAll (r ∷ rs) s =
      Admits r s × ((t : Table Tox) → core_step r s ≡ ok (tt, t) → AdmitsAll rs t)
