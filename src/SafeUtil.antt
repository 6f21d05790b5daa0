-- ===== src/SafeUtil.antt =====
-- safeUtil.c: system calls whose failure ends the program. What a call of libc or of libcpe464
-- comes to is an argument: none is a negative result, or NULL.
use cpe464_a.Base.{ℕ, Bool, Option, none, some, if◌then◌else◌}

-- How a function that may end the program comes out: by `exit(code)`, the code as the shell sees it,
-- or by undefined behaviour.
pub data Checked (A : Type 0) : Type 0 where
  returns : A → Checked A
  stops : ℕ → Checked A
  crashes : Checked A

unfoldable pub safe_recvfrom : (recvfrom : Option ℕ) → Checked ℕ
safe_recvfrom none = stops 255
safe_recvfrom (some n) = returns n

unfoldable pub safe_sendto : (sendto_err : Option ℕ) → Checked ℕ
safe_sendto none = stops 255
safe_sendto (some n) = returns n

unfoldable pub safe_recv : (recv : Option ℕ) → Checked ℕ
safe_recv none = stops 255
safe_recv (some n) = returns n

unfoldable pub safe_send : (send : Option ℕ) → Checked ℕ
safe_send none = stops 255
safe_send (some n) = returns n

-- The block of memory itself is what the caller makes of it.
unfoldable pub srealloc : {A : Type 0} (realloc : ℕ → Bool) (size : ℕ) (block : A) → Checked A
srealloc realloc size block = if realloc size then returns block else stops 255

unfoldable pub s_calloc :
    {A : Type 0} (calloc : ℕ → ℕ → Bool) (nmemb size : ℕ) (block : A) → Checked A
s_calloc calloc nmemb size block = if calloc nmemb size then returns block else stops 255
