-- ===== src/Prelude/Arrays.antt =====
-- Fixed-size arrays as total functions of the index. A cell outside the declared size belongs to
-- no array of the program: that no access goes there is stated where an index is computed.
use Prim.Native.Nat.{ℕ}
use server_study.Prelude.Tests.{◌==◌, if◌then◌else◌}

abbrev pub Array {ℓ} : Type ℓ → Type ℓ
Array A = ℕ → A

abbrev pub update {ℓ} : {A : Type ℓ} → Array A → ℕ → A → Array A
update a i v j = if j == i then v else a j
