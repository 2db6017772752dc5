-- ===== src/Printk/Buffer.antt =====
-- A buffer that is being written from the front: the bytes before `str`, and the number of bytes
-- from `str` to `end`. So `str < end` is `0 < room`.
use knos.Base.{
  ℕ, zero, suc, ◌-◌, ◌≤◌, ◌≡◌, refl, ◌∙◌, sym, true, false, List, [], ◌∷◌, ◌++◌, arith, length,
  length-append, replicate, ◌==◌,
}
use mathlib.Core.List.{append-nil, append_assoc}

pub record Buffer : Type 0 where
  pub text : List ℕ
  pub room : ℕ

-- `*str++ = c`
unfoldable pub push : ℕ → Buffer → Buffer
push c b = record { text = b.text ++ (c ∷ []); room = b.room - 1 }

-- `if (str < end) *str++ = c`
unfoldable pub put : ℕ → Buffer → Buffer
put c b = elim (b.room == 0) [ true ↦ b | false ↦ push c b ]

-- `while (n-- > 0 && str < end) *str++ = c`
unfoldable pub fill : ℕ → ℕ → Buffer → Buffer
fill zero c b = b
fill (suc n) c b = elim (b.room == 0) [ true ↦ b | false ↦ fill n c (push c b) ]

-- The same for the bytes of a list.
unfoldable pub copy : List ℕ → Buffer → Buffer
copy [] b = b
copy (c ∷ cs) b = elim (b.room == 0) [ true ↦ b | false ↦ copy cs (push c b) ]

-- Where all of a text fits, it is appended.
abbrev pub emit : List ℕ → Buffer → Buffer
emit cs b = record { text = b.text ++ cs; room = b.room - length cs }

pub emit-nil : (b : Buffer) → emit [] b ≡ b
emit-nil b = ground (arith, append-nil b.text)

pub emit-append : (cs ds : List ℕ) (b : Buffer) → emit ds (emit cs b) ≡ emit (cs ++ ds) b
emit-append cs ds b = ground (arith, append_assoc b.text cs ds, length-append cs ds)

pub put-emit : (c : ℕ) (b : Buffer) → 1 ≤ b.room → put c b ≡ emit (c ∷ []) b
unfolding put push
put-emit c b h = ground arith

push-emit : (c : ℕ) (cs : List ℕ) (b : Buffer) → emit cs (push c b) ≡ emit (c ∷ cs) b
unfolding push
push-emit c cs b = emit-append (c ∷ []) cs b

pub copy-emit : (cs : List ℕ) (b : Buffer) → length cs ≤ b.room → copy cs b ≡ emit cs b
unfolding copy
copy-emit [] b h = sym (emit-nil b)
copy-emit (c ∷ cs) b h =
    let some_room : (b.room == 0) ≡ false = ground arith in
    rw (some_room, copy) (copy-emit cs (push c b) (unfold push in omega arith) ∙ push-emit c cs b)

pub fill-copy : (n c : ℕ) (b : Buffer) → fill n c b ≡ copy (replicate n c) b
unfolding fill copy
fill-copy zero c b = refl
fill-copy (suc n) c b = ground (arith, fill-copy n c (push c b))
