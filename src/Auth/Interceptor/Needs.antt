-- ===== src/Auth/Interceptor/Needs.antt =====
-- The permission that a method needs, and that methodPerm of etcd/auth/interceptor.go has it.
use mathlib.Core.Option.{some-injective}
use mathlib.Core.Path.{subst}
use t.Prelude.{◌≡◌, refl, sym, ◌↔◌, true, some, Bytes, bytes_eq, bytes_eq→eq, Bool-cases, inl, inr}
use t.Auth.{PermType, read, write}
use t.Auth.Interceptor.{
  range_method, put_method, delete_range_method, txn_method, watch_method, method_perm,
}

-- The permission that a method needs for a key
pub data Needs (m : Bytes) : PermType → Type 0 where
  range_reads : m ≡ range_method → Needs m read
  watch_reads : m ≡ watch_method → Needs m read
  put_writes : m ≡ put_method → Needs m write
  delete_writes : m ≡ delete_range_method → Needs m write
  txn_writes : m ≡ txn_method → Needs m write

perm_needed : (m : Bytes) (pt : PermType) → method_perm m ≡ some pt → Needs m pt
unfolding method_perm
perm_needed m pt h = elim (Bool-cases (bytes_eq m range_method)) [
  | inl a ↦ subst (Needs m) (some-injective read pt (rw a at h)) (range_reads (same a))
  | inr a ↦ elim (Bool-cases (bytes_eq m put_method)) [
    | inl b ↦ subst (Needs m) (some-injective write pt (rw (a, b) at h)) (put_writes (same b))
    | inr b ↦ elim (Bool-cases (bytes_eq m delete_range_method)) [
      | inl c ↦
          subst (Needs m) (some-injective write pt (rw (a, b, c) at h)) (delete_writes (same c))
      | inr c ↦ elim (Bool-cases (bytes_eq m txn_method)) [
        | inl d ↦
            subst (Needs m) (some-injective write pt (rw (a, b, c, d) at h)) (txn_writes (same d))
        | inr d ↦ elim (Bool-cases (bytes_eq m watch_method)) [
          | inl e ↦
              subst (Needs m) (some-injective read pt (rw (a, b, c, d, e) at h))
                (watch_reads (same e))
          | inr e ↦ absurd (cc (rw (a, b, c, d, e) at h))
        ]
      ]
    ]
  ]
]
  where
    same : {c : Bytes} → bytes_eq m c ≡ true → m ≡ c
    same {c} e = bytes_eq→eq m c e

needed_perm : (m : Bytes) (pt : PermType) → Needs m pt → method_perm m ≡ some pt
unfolding method_perm bytes_eq
needed_perm m pt (range_reads at) = subst (λ c. method_perm c ≡ some read) (sym at) refl
needed_perm m pt (watch_reads at) = subst (λ c. method_perm c ≡ some read) (sym at) refl
needed_perm m pt (put_writes at) = subst (λ c. method_perm c ≡ some write) (sym at) refl
needed_perm m pt (delete_writes at) = subst (λ c. method_perm c ≡ some write) (sym at) refl
needed_perm m pt (txn_writes at) = subst (λ c. method_perm c ≡ some write) (sym at) refl

pub method_perm-Needs : (m : Bytes) (pt : PermType) → (method_perm m ≡ some pt) ↔ Needs m pt
method_perm-Needs m pt = (perm_needed m pt, needed_perm m pt)
