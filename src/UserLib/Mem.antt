-- ===== src/UserLib/Mem.antt =====
-- The functions on blocks of memory of GPT-5.2-Codex/code/user/lib/string.c. A pointer is an address,
-- and NULL as a result is `none`.
pub mod Move
use os_agent_lab.Prelude.{
  ℕ, zero, suc, min, List, [], ◌∷◌, length, ◌+◌, ◌-◌, ◌%◌, Bool, ◌||◌, Option, none, some, ◌==◌,
  ltb, if◌then◌else◌, update,
}
use os_agent_lab.Phys.{Bytes}
use os_agent_lab.UserLib.Str.{ℤ, diff, pos}

-- for (i = 0; i < n; i++) d[i] = s[i]; `i` counts up to `i + left`.
pub copy_up : ℕ → ℕ → ℕ → ℕ → Bytes → Bytes
copy_up zero i d s m = m
copy_up (suc left) i d s m = copy_up left (i + 1) d s (update m (d + i) (m (s + i)))

-- for (i = n; i > 0; i--) d[i - 1] = s[i - 1]
pub copy_down : ℕ → ℕ → ℕ → Bytes → Bytes
copy_down zero d s m = m
copy_down (suc i) d s m = copy_down i d s (update m (d + i) (m (s + i)))

-- The result is the memory and the pointer returned.
pub memcpy : ℕ → ℕ → ℕ → Bytes → ℕ × Bytes
unfolding copy_up
memcpy dst src n m = (dst, copy_up n 0 dst src m)

pub mempcpy : ℕ → ℕ → ℕ → Bytes → ℕ × Bytes
unfolding copy_up
mempcpy dst src n m = (dst + n, copy_up n 0 dst src m)

pub memmove : ℕ → ℕ → ℕ → Bytes → ℕ × Bytes
unfolding copy_up copy_down
memmove dst src n m =
    if dst == src || n == 0
    then (dst, m)
    else (if ltb dst src then (dst, copy_up n 0 dst src m) else (dst, copy_down n dst src m))

-- for (i = 0; i < n; i++) d[i] = c
pub fill_up : ℕ → ℕ → ℕ → ℕ → Bytes → Bytes
fill_up zero i d c m = m
fill_up (suc left) i d c m = fill_up left (i + 1) d c (update m (d + i) c)

pub memset : ℕ → ℕ → ℕ → Bytes → ℕ × Bytes
unfolding fill_up
memset dst c n m = (dst, fill_up n 0 dst (c % 256) m)

-- The loops of `memcmp` and `memchr`, from `i` on.
pub compare_up : ℕ → ℕ → ℕ → ℕ → Bytes → ℤ
unfolding diff
compare_up zero i a b m = pos 0
compare_up (suc left) i a b m =
    let rest = compare_up left (i + 1) a b m in
    if m (a + i) == m (b + i) then rest else diff (m (a + i)) (m (b + i))

pub memcmp : ℕ → ℕ → ℕ → Bytes → ℤ
unfolding compare_up
memcmp a b n m = compare_up n 0 a b m

pub seek_up : ℕ → ℕ → ℕ → ℕ → Bytes → Option ℕ
seek_up zero i s c m = none
seek_up (suc left) i s c m =
    let rest = seek_up left (i + 1) s c m in if m (s + i) == c then some (s + i) else rest

pub memchr : ℕ → ℕ → ℕ → Bytes → Option ℕ
unfolding seek_up
memchr s c n m = seek_up n 0 s (c % 256) m

-- for (i = n; i > 0; i--)
pub seek_down : ℕ → ℕ → ℕ → Bytes → Option ℕ
seek_down zero s c m = none
seek_down (suc i) s c m =
    let rest = seek_down i s c m in if m (s + i) == c then some (s + i) else rest

pub memrchr : ℕ → ℕ → ℕ → Bytes → Option ℕ
unfolding seek_down
memrchr s c n m = seek_down n s (c % 256) m

-- The copies of a string into memory: its bytes, and the NUL behind them.
pub copy_string : List ℕ → ℕ → Bytes → Bytes
copy_string [] d m = update m d 0
copy_string (c ∷ s) d m = copy_string s (d + 1) (update m d c)

pub strcpy : ℕ → List ℕ → Bytes → ℕ × Bytes
unfolding copy_string
strcpy dst s m = (dst, copy_string s dst m)

pub stpcpy : ℕ → List ℕ → Bytes → ℕ × Bytes
unfolding copy_string
stpcpy dst s m = (dst + length s, copy_string s dst m)

-- Exactly `n` bytes: the string's, and NULs where it is shorter.
pub copy_padded : ℕ → List ℕ → ℕ → Bytes → Bytes
copy_padded zero s d m = m
copy_padded (suc n) [] d m = copy_padded n [] (d + 1) (update m d 0)
copy_padded (suc n) (c ∷ s) d m = copy_padded n s (d + 1) (update m d c)

pub strncpy : ℕ → List ℕ → ℕ → Bytes → ℕ × Bytes
unfolding copy_padded
strncpy dst s n m = (dst, copy_padded n s dst m)

pub stpncpy : ℕ → List ℕ → ℕ → Bytes → ℕ × Bytes
unfolding copy_padded
stpncpy dst s n m = (dst + min (length s) n, copy_padded n s dst m)
