-- ===== src/Proposals/Queue.antt =====
-- safeQueue.go: a queue behind a lock. Each method is one locked step.
use dsc_zookeeper.Prelude.{ℕ, Bool, true, false, List, [], ◌∷◌, ◌++◌, Option, none, some, length}

pub record SafeQueue {ℓ} (A : Type ℓ) : Type ℓ where
  pub items : List A

module _ {ℓ} {A : Type ℓ} where
  unfoldable pub elements : SafeQueue A → List A
  elements q = q.items

  unfoldable pub enqueue : SafeQueue A → A → SafeQueue A
  enqueue q item = record q { items = q.items ++ item ∷ [] }

  take_front : List A → Option A × SafeQueue A
  take_front [] = (none, record { items = [] })
  take_front (x ∷ xs) = (some x, record { items = xs })

  -- `none` is the zero value with the flag `false`.
  unfoldable pub dequeue : SafeQueue A → Option A × SafeQueue A
  unfolding take_front
  dequeue q = take_front q.items

  abbrev null : List A → Bool
  null [] = true
  null (x ∷ xs) = false

  unfoldable pub is_empty : SafeQueue A → Bool
  is_empty q = null q.items

  abbrev head? : List A → Option A
  head? [] = none
  head? (x ∷ xs) = some x

  unfoldable pub peek : SafeQueue A → Option A
  peek q = head? q.items

  unfoldable pub size : SafeQueue A → ℕ
  size q = length q.items

  unfoldable pub clear : SafeQueue A → SafeQueue A
  clear q = record q { items = [] }
