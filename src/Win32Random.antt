-- ===== src/Win32Random.antt =====
-- src/win32_random.c: random bytes from the system, whose generator is a parameter, with a status
-- that is not below 0 as `true`. The buffer is not NULL.
use printdrop.Prelude.{ℕ, Bool, true, false, List, [], ltb, ◌==◌, if◌then◌else◌}
use printdrop.Win32Sha256.{ulong_max}

-- Whether the buffer is filled, what it then holds, and the system.
unfoldable pub win32_random_fill :
    {S : Type 0} → (ℕ → S → Bool × List ℕ × S) → S → ℕ → Bool × List ℕ × S
win32_random_fill gen_random s buffer_size =
    if ltb ulong_max buffer_size
    then (false, [], s)
    else if buffer_size == 0
    then (true, [], s)
    else gen_random buffer_size s
