-- ===== src/Run/Abort.antt =====
-- AbortRegistry of agent-kernel/abort-registry.ts. A controller is shared by the registry and the
-- run, so it stands as its number in a store: the controllers below `next` were made, and `aborted`
-- has those whose signal is aborted.
pub mod Laws
pub mod Leaks
use sun_pilot.Base.{
  ℕ, suc, String, Bool, true, false, Option, none, some, List, [], ◌∷◌, Dict, lookup, insert,
  remove, length, any, ◌==◌,
}

pub record AbortRegistry : Type 0 where
  pub controllers : Dict ℕ
  pub next : ℕ
  pub aborted : List ℕ

abbrev pub empty : AbortRegistry
empty = record { controllers = []; next = 0; aborted = [] }

-- `signal.aborted` of a controller.
abbrev pub is_aborted : ℕ → AbortRegistry → Bool
is_aborted c g = any (λ d. d == c) g.aborted

abbrev aborted_by : String → Option ℕ → AbortRegistry → AbortRegistry × Bool
aborted_by run_id none g = (g, false)
aborted_by run_id (some c) g =
    (record g { controllers = remove run_id g.controllers; aborted = c ∷ g.aborted }, true)

unfoldable pub abort : String → AbortRegistry → AbortRegistry × Bool
abort run_id g = aborted_by run_id (lookup run_id g.controllers) g

unfoldable pub create : String → AbortRegistry → AbortRegistry × ℕ
unfolding abort
create run_id g =
    let h = (abort run_id g).0 in
    (record h { controllers = insert run_id h.next h.controllers; next = suc h.next }, h.next)

unfoldable pub remove_run : String → AbortRegistry → AbortRegistry
remove_run run_id g = record g { controllers = remove run_id g.controllers }

abbrev pub is_there {ℓ} : {A : Type ℓ} → Option A → Bool
is_there none = false
is_there (some a) = true

unfoldable pub has : String → AbortRegistry → Bool
has run_id g = is_there (lookup run_id g.controllers)

unfoldable pub size : AbortRegistry → ℕ
size g = length g.controllers
