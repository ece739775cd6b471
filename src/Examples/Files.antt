-- ===== src/Examples/Files.antt =====
-- The configuration files of the examples (examples/*/main.go: loadConfig, store).
--
-- The file system and the YAML library are not part of the repository: they are parameters, with
-- what the examples rely on as laws.
use cloud_sdk_go.Base.{
  ◌≡◌, ℕ, String, Option, none, some, Failure, Result, ok, err, ◌>>=◌, Result-cases, inl, inr,
  arith,
}

-- Files on a disk `D`, and the YAML texts of configurations `C`, as the bytes of a file.
pub record Files (D C : Type 0) : Type 1 where
  pub Text : Type 0
  pub read : String → D → Result Text
  pub write : String → Text → D → D × Option Failure
  pub marshal : C → Result Text
  pub unmarshal : Text → Result C

-- What was written can be read, and what was marshalled can be unmarshalled.
pub record IsFaithful {D C : Type 0} (files : Files D C) : Type 0 where
  pub reads_written :
      (path : String) (text : files.Text) (d d' : D)
      → files.write path text d ≡ (d', none)
      → files.read path d' ≡ ok text
  pub reads_marshalled :
      (c : C) (text : files.Text) → files.marshal c ≡ ok text → files.unmarshal text ≡ ok c

-- How the `main` function of an example ends: a panic, `os.Exit`, or it goes on.
pub data Ending (A : Type 0) : Type 0 where
  crashes : Ending A
  exits : (status : ℕ) → Ending A
  continues : A → Ending A

pub not_crashed :
    {A D : Type 0} {d d' : D} {a : A} → ◌≡◌ {A = D × Ending A} (d, crashes) (d', continues a) → ⊥
not_crashed e = ground arith

pub pair_of : {A B : Type 0} {a : A} {b : B} (x : A × B) → x.0 ≡ a → x.1 ≡ b → x ≡ (a, b)
pair_of (u, v) p q = cc (p, q)

module _ {D C : Type 0} (files : Files D C) where
  open files use {read, write, marshal, unmarshal}

  unfoldable pub load_config : String → D → Result C
  load_config path d = read path d >>= unmarshal

  unfoldable pub store_config : C → String → D → D × Option Failure
  store_config c path d = elim (marshal c) [ err e ↦ (d, some e) | ok text ↦ write path text d ]

  -- A configuration that is stored is the one that is loaded, given that the file system and the
  -- YAML library keep what they are given.
  pub store-load :
      (c : C) (path : String) (d d' : D)
      → IsFaithful files
      → store_config c path d ≡ (d', none)
      → load_config path d' ≡ ok c
  unfolding store_config load_config
  store-load c path d d' law e = elim (Result-cases (marshal c)) [
    | inl (text, m) ↦
        let w : write path text d ≡ (d', none) = rw (store_config, m) at e in
        rw (law.reads_written path text d d' w) (law.reads_marshalled c text m)
    | inr (x, m) ↦ ground (arith, m)
  ]
