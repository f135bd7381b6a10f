-- ===== src/Text/Words.antt =====
-- A uint in memory, the lowest byte first.
use project4final.Text.Memory.{Memory}
use project4final.Prelude.{ℕ, ◌+◌, update, ◌<◌, ◌*◌, ◌%◌, ◌⊎◌, ◌^◌, ◌≤◌, ◌/◌, ◌≡◌, arith, refl}

abbrev pub load_word : Memory → ℕ → ℕ
load_word mem a = mem a + mem (a + 1) * 2 ^ 8 + mem (a + 2) * 2 ^ 16 + mem (a + 3) * 2 ^ 24

unfoldable pub store_word : Memory → ℕ → ℕ → Memory
store_word mem a w =
    update
      (update (update (update mem a (w % 256)) (a + 1) (w / 2 ^ 8 % 256)) (a + 2)
        (w / 2 ^ 16 % 256))
      (a + 3) (w / 2 ^ 24 % 256)

pub store_word-out :
    (mem : Memory) (a w x : ℕ) → (x < a) ⊎ (a + 4 ≤ x) → store_word mem a w x ≡ mem x
unfolding store_word
store_word-out mem a w x h = ground arith

pub load_word-store_word :
    (mem : Memory) (a w : ℕ) → w < 2 ^ 32 → load_word (store_word mem a w) a ≡ w
unfolding store_word
load_word-store_word mem a w h = ground arith

-- A word apart from the one that is written.
pub load_word-apart :
    (mem : Memory) (a b w : ℕ)
    → (b + 4 ≤ a) ⊎ (a + 4 ≤ b)
    → load_word (store_word mem a w) b ≡ load_word mem b
load_word-apart mem a b w h =
    rw
      (
        store_word-out mem a w b (omega arith),
        store_word-out mem a w (b + 1) (omega arith),
        store_word-out mem a w (b + 2) (omega arith),
        store_word-out mem a w (b + 3) (omega arith),
      )
      refl
