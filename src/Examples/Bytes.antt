-- ===== src/Examples/Bytes.antt =====
-- A concrete stand-in for encoding/json at the write requests: each text and each list is written
-- behind its length.
use dsc_zookeeper.Prelude.{
  ℕ, zero, suc, Str, Bytes, List, [], ◌∷◌, ◌++◌, length, take, drop, take-append, drop-append, Bool,
  true, false, Codec, IsExact, ◌≡◌, refl,
}
use dsc_zookeeper.Prelude.Int.{ℤ, pos, negsuc}
use dsc_zookeeper.Znode.Types.{ZNode, WriteRequest}

pub put_text : Str → Bytes → Bytes
put_text s rest = length s ∷ (s ++ rest)

pub get_text : Bytes → Str × Bytes
get_text [] = ([], [])
get_text (n ∷ bytes) = (take n bytes, drop n bytes)

get_text-put_text : (s : Str) (rest : Bytes) → get_text (put_text s rest) ≡ (s, rest)
unfolding put_text get_text
get_text-put_text s rest =
    rw (take-append s rest (length s) refl, drop-append s rest (length s) refl) refl

pub put_int : ℤ → Bytes → Bytes
put_int (pos n) rest = 0 ∷ n ∷ rest
put_int (negsuc n) rest = 1 ∷ n ∷ rest

pub get_int : Bytes → ℤ × Bytes
get_int (zero ∷ n ∷ rest) = (pos n, rest)
get_int (suc k ∷ n ∷ rest) = (negsuc n, rest)
get_int _ = (pos 0, [])

get_int-put_int : (z : ℤ) (rest : Bytes) → get_int (put_int z rest) ≡ (z, rest)
unfolding put_int get_int
get_int-put_int (pos n) rest = refl
get_int-put_int (negsuc n) rest = refl

pub put_bool : Bool → Bytes → Bytes
put_bool true rest = 1 ∷ rest
put_bool false rest = 0 ∷ rest

pub get_bool : Bytes → Bool × Bytes
get_bool (suc k ∷ rest) = (true, rest)
get_bool (zero ∷ rest) = (false, rest)
get_bool [] = (false, [])

get_bool-put_bool : (b : Bool) (rest : Bytes) → get_bool (put_bool b rest) ≡ (b, rest)
unfolding put_bool get_bool
get_bool-put_bool true rest = refl
get_bool-put_bool false rest = refl

-- The entries of a list, one behind the other.
module _ {A : Type 0} (put : A → Bytes → Bytes) (get : Bytes → A × Bytes) where
  pub put_all : List A → Bytes → Bytes
  put_all [] rest = rest
  put_all (x ∷ xs) rest = put x (put_all xs rest)

  pub get_all : ℕ → Bytes → List A × Bytes
  get_all zero bytes = ([], bytes)
  get_all (suc n) bytes =
      let (x, rest) = get bytes in let (xs, rest') = get_all n rest in (x ∷ xs, rest')

  pub put_list : List A → Bytes → Bytes
  put_list xs rest = length xs ∷ put_all xs rest

  pub get_list : Bytes → List A × Bytes
  get_list [] = ([], [])
  get_list (n ∷ bytes) = get_all n bytes

  get_all-put_all :
      (xs : List A) (rest : Bytes)
      → ((x : A) (r : Bytes) → get (put x r) ≡ (x, r))
      → get_all (length xs) (put_all xs rest) ≡ (xs, rest)
  unfolding put_all get_all
  get_all-put_all [] rest one = refl
  get_all-put_all (x ∷ xs) rest one =
      rw (one x (put_all xs rest)) (rw (get_all-put_all xs rest one) refl)

  get_list-put_list :
      (xs : List A) (rest : Bytes)
      → ((x : A) (r : Bytes) → get (put x r) ≡ (x, r))
      → get_list (put_list xs rest) ≡ (xs, rest)
  unfolding get_list put_list
  get_list-put_list xs rest one = get_all-put_all xs rest one

pub put_znode : ZNode → Bytes → Bytes
put_znode z rest = put_text z.path (
    put_text z.content (
      put_int z.version (
        put_text z.ephemeral (put_bool z.sequential (put_list put_text get_text z.children rest)))))

pub get_znode : Bytes → ZNode × Bytes
get_znode bytes =
    let (path, b1) = get_text bytes in
    let (content, b2) = get_text b1 in
    let (version, b3) = get_int b2 in
    let (ephemeral, b4) = get_text b3 in
    let (sequential, b5) = get_bool b4 in
    let (children, b6) = get_list put_text get_text b5 in
    (
      record {
        path = path;
        content = content;
        version = version;
        ephemeral = ephemeral;
        sequential = sequential;
        children = children;
      },
      b6,
    )

get_znode-put_znode : (z : ZNode) (rest : Bytes) → get_znode (put_znode z rest) ≡ (z, rest)
unfolding put_znode get_znode
get_znode-put_znode z rest =
    let children = put_list put_text get_text z.children rest in
    let flagged = put_bool z.sequential children in
    let named = put_text z.ephemeral flagged in
    let numbered = put_int z.version named in
    let filled = put_text z.content numbered in
    rw
      (
        get_text-put_text z.path filled,
        get_text-put_text z.content numbered,
        get_int-put_int z.version named,
        get_text-put_text z.ephemeral flagged,
        get_bool-put_bool z.sequential children,
        get_list-put_list put_text get_text z.children rest get_text-put_text,
      )
      refl

abbrev pub requests : Codec WriteRequest
requests = record {
  marshal = (λ r. put_text r.request (put_list put_znode get_znode r.znodes []));
  unmarshal = (λ bytes.
      let (request, rest) = get_text bytes in
      (record { request = request; znodes = (get_list put_znode get_znode rest).0 }, true));
}

pub requests-IsExact : IsExact requests
requests-IsExact = record {
  exact = λ r.
      rw
        (
          get_text-put_text r.request (put_list put_znode get_znode r.znodes []),
          get_list-put_list put_znode get_znode r.znodes [] get_znode-put_znode,
        )
        refl;
}
