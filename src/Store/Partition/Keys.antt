-- ===== src/Store/Partition/Keys.antt =====
-- Which partition a key belongs to: the queue types and prefixes of store/store.go.
use skewer.Prelude.{
  ℕ, Bool, true, ◌&&◌, [], ◌∷◌, ◌++◌, ◌≡◌, ◌↔◌, refl, ap, arith, Bytes, equal, equal_iff,
}
use skewer.Conf.Destination.{Destination, letter, letter-injective}

-- `QueueType`, without `Messages`, which is no key of `Queues`
pub data QueueType : Type 0 where
  ready sent failed perm_errors : QueueType

-- `Queues`
unfoldable pub queue_letter : QueueType → ℕ
queue_letter ready = b'r'
queue_letter sent = b's'
queue_letter failed = b'f'
queue_letter perm_errors = b'p'

-- The partitions of a `Backend` but the whole database.
pub data Part : Type 0 where
  queue : QueueType → Destination → Part
  messages configs : Part

first : Part → ℕ
first (queue q d) = queue_letter q
first messages = b'm'
first configs = b'c'

second : Part → ℕ
second (queue q d) = letter d
second messages = b'a'
second configs = b'o'

-- `getPartitionPrefix`, and the prefixes that `NewBackend` gives to the other two
unfoldable pub prefix : Part → Bytes
unfolding first second
prefix a = first a ∷ second a ∷ []

queue_letter-injective : (q r : QueueType) → queue_letter q ≡ queue_letter r → q ≡ r
unfolding queue_letter
queue_letter-injective ready r h = ground arith
queue_letter-injective _ r h = ground arith

first-injective : (a c : Part) → first a ≡ first c → second a ≡ second c → a ≡ c
unfolding queue_letter letter first second
first-injective (queue q d) (queue r e) h k =
    cc (queue_letter-injective q r h, letter-injective d e k)
first-injective (queue q d) messages h k = ground arith
first-injective (queue q d) configs h k = ground arith
first-injective messages (queue q d) h k = ground arith
first-injective configs (queue q d) h k = ground arith
first-injective messages messages h k = refl
first-injective configs configs h k = refl
first-injective messages configs h k = ground arith
first-injective configs messages h k = ground arith

abbrev pub same_part : Part → Part → Bool
same_part a c = equal (prefix a) (prefix c)

pub same_part_iff : (a c : Part) → (same_part a c ≡ true) ↔ (a ≡ c)
unfolding prefix
same_part_iff a c = (
  λ h. let e = (equal_iff (prefix a) (prefix c)).0 h in first-injective a c (cc) (cc),
  λ e. (equal_iff (prefix a) (prefix c)).1 (ap prefix e),
)

-- Two keys are equal exactly when their partitions and their ULIDs are.
pub equal_keys :
    (a c : Part) (u v : Bytes)
    → equal (prefix a ++ u) (prefix c ++ v) ≡ (same_part a c && equal u v)
unfolding prefix
equal_keys a c u v = ground arith
