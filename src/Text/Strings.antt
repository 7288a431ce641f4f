-- ===== src/Text/Strings.antt =====
-- kernel/lib/string.c: C strings in memory, and `strlen`.
use pyramid_kernel.Prelude.{
  ℕ, zero, suc, ◌+◌, ◌<◌, ◌≡◌, ◌≢◌, List, [], ◌∷◌, length, arith, some, ◌∙◌, ap,
}
use pyramid_kernel.Memory.{Memory}
use pyramid_kernel.Text.{strlen, strlen_loop}

-- The bytes from `p` on are those of the text, none of them 0, and a 0 behind them.
abbrev pub IsString : Memory → ℕ → List ℕ → Type 0
IsString m p [] = m p ≡ 0
IsString m p (c ∷ cs) = (m p ≡ c) × (c ≢ 0) × IsString m (p + 1) cs

strlen_loop_lem :
    (fuel buf i p : ℕ) (cs : List ℕ) (m : Memory)
    → p ≡ buf + i
    → IsString m p cs
    → length cs < fuel
    → strlen_loop fuel buf i m ≡ some (i + length cs)
unfolding strlen_loop
strlen_loop_lem zero buf i p cs m e s enough = absurd (omega arith)
strlen_loop_lem (suc fuel) buf i p [] m e s enough =
    let end : m (buf + i) ≡ 0 = ap m (omega arith) ∙ s in ground (arith, end)
strlen_loop_lem (suc fuel) buf i p (c ∷ cs) m e s enough =
    let here : m (buf + i) ≡ c = ap m (omega arith) ∙ s.0 in
    let rest = strlen_loop_lem fuel buf (i + 1) (p + 1) cs m (omega arith) s.2 (omega arith) in
    ground (arith, here, rest, s.1)

-- With one round more than the text at the pointer is long, `strlen` returns its length.
pub strlen-length :
    (fuel buf : ℕ) (cs : List ℕ) (m : Memory)
    → IsString m buf cs
    → length cs < fuel
    → strlen fuel buf m ≡ some (length cs)
unfolding strlen
strlen-length fuel buf cs m s enough =
    strlen_loop_lem fuel buf 0 buf cs m (omega arith) s enough ∙ ap some (omega arith)
