-- ===== src/Frame/Encoding/Fields.antt =====
-- write.go, encodeHeaders, and utils.go, httpCodeString: the fields that a response encodes.
use h2stream.Prelude.{
  ℕ, zero, suc, ◌+◌, ◌≡◌, refl, ap, inl, inr, Bool, true, false, Bool-cases, ◌&&◌, ◌||◌, not,
  Option, none, some, List, [], ◌∷◌, ◌++◌, ◌==◌, ==→≡, if◌then◌else◌,
}
use h2stream.Frame.{Header, ResHeaders, PushRequest}
use h2stream.Frame.Encoding.{
  WriteContext, Texts, values, entries, keys, common, code_string_in, http_code_string,
  encode_values, encode_keys, encode_headers, encode_unless_empty, encode_response, encode_push,
}
use Prim.Native.String.{String}
use text.Mathlib.Text.{◌==◌ as str_eq}

-- A header field.
abbrev pub Field : Type 0
Field = String × String

-- Encoding one field after another.
abbrev pub encode_all : {C : Type 0} → WriteContext C → List Field → C → C
encode_all ctx [] c = c
encode_all ctx ((k, v) ∷ xs) c = encode_all ctx xs (ctx.write_field k v c)

encode_all-append :
    {C : Type 0} (ctx : WriteContext C) (xs ys : List Field) (c : C)
    → encode_all ctx (xs ++ ys) c ≡ encode_all ctx ys (encode_all ctx xs c)
encode_all-append ctx [] ys c = refl
encode_all-append ctx ((k, v) ∷ xs) ys c = encode_all-append ctx xs ys (ctx.write_field k v c)

module _ (lib : Texts) where
  code_string_in-common : (n i code : ℕ) → code_string_in lib (common lib n i) code ≡ lib.itoa code
  unfolding code_string_in common
  code_string_in-common zero i code = refl
  code_string_in-common (suc n) i code = elim (Bool-cases (str_eq (lib.status_text i) "")) [
    | inl e ↦ rw e (code_string_in-common n (i + 1) code)
    | inr e ↦ rw e (elim (Bool-cases (i == code)) [
      | inl h ↦ rw h (ap (lib.itoa) (==→≡ i code h))
      | inr h ↦ rw h (code_string_in-common n (i + 1) code)
    ])
  ]

  -- httpCodeString of a code is strconv.Itoa of it, whether the table has the code or not.
  pub http_code_string-itoa : (code : ℕ) → http_code_string lib code ≡ lib.itoa code
  unfolding http_code_string
  http_code_string-itoa code = code_string_in-common 900 100 code

  -- The values of a key that are sent: valid ones, and of "transfer-encoding" only "trailers".
  abbrev pub is_sent : String → String → Bool
  is_sent k v =
      lib.valid_header_field_value v && (not (str_eq k "transfer-encoding") || str_eq v "trailers")

  abbrev pub fields_of : String → List String → List Field
  fields_of k [] = []
  fields_of k (v ∷ vv) = if is_sent k v then (k, v) ∷ fields_of k vv else fields_of k vv

  abbrev pub fields_in : Header → List String → List Field
  fields_in h [] = []
  fields_in h (k ∷ ks) = fields_of (lib.to_lower k) (values h k) ++ fields_in h ks

  -- The fields of a header: of the given keys in their order, or of all keys in sorted order.
  abbrev pub header_fields : Option Header → Option (List String) → List Field
  header_fields h none = fields_in (entries h) (keys lib (entries h))
  header_fields h (some ks) = fields_in (entries h) ks

  abbrev pub unless_empty : String → String → List Field
  unless_empty k v = if str_eq v "" then [] else (k, v) ∷ []

  abbrev pub response_fields : ResHeaders → List Field
  response_fields r =
      (if r.http_res_code == 0 then [] else (":status", lib.itoa r.http_res_code) ∷ [])
      ++ header_fields r.h r.trailers
      ++ unless_empty "content-type" r.content_type
      ++ unless_empty "content-length" r.content_length
      ++ unless_empty "date" r.date

  abbrev pub push_fields : PushRequest → List Field
  push_fields p =
      (":method", p.method)
      ∷ (":scheme", p.scheme)
      ∷ (":authority", p.host)
      ∷ (":path", p.path)
      ∷ header_fields p.h none

  module _ {C : Type 0} (ctx : WriteContext C) where
    -- The code skips a value by two tests, the description keeps one by a third.
    choose_all :
        (a b d : Bool) (x y c : C) (xs ys : List Field)
        → x ≡ encode_all ctx xs c
        → y ≡ encode_all ctx ys c
        → (if not a then x else if b && not d then x else y)
          ≡ encode_all ctx (if a && (not b || d) then ys else xs) c
    choose_all true true true x y c xs ys h k = k
    choose_all true true false x y c xs ys h k = h
    choose_all true false d x y c xs ys h k = k
    choose_all false b d x y c xs ys h k = h

    encode_values-all :
        (k : String) (vv : List String) (c : C)
        → encode_values lib ctx k (str_eq k "transfer-encoding") vv c
          ≡ encode_all ctx (fields_of k vv) c
    unfolding encode_values
    encode_values-all k [] c = refl
    encode_values-all k (v ∷ vv) c =
        let skipped = encode_values-all k vv c in
        let encoded = encode_values-all k vv (ctx.write_field k v c) in
        choose_all (lib.valid_header_field_value v) (str_eq k "transfer-encoding")
          (str_eq v "trailers") _ _ c (fields_of k vv) ((k, v) ∷ fields_of k vv) skipped encoded

    encode_keys-all :
        (h : Header) (ks : List String) (c : C)
        → encode_keys lib ctx h ks c ≡ encode_all ctx (fields_in h ks) c
    unfolding encode_keys
    encode_keys-all h [] c = refl
    encode_keys-all h (k ∷ ks) c =
        let lower = lib.to_lower k in
        rw
          (
            encode_all-append ctx (fields_of lower (values h k)) (fields_in h ks) c,
            encode_values-all lower (values h k) c,
          )
          (encode_keys-all h ks _)

    pub encode_headers-all :
        (h : Option Header) (ks : Option (List String)) (c : C)
        → encode_headers lib ctx h ks c ≡ encode_all ctx (header_fields h ks) c
    unfolding encode_headers
    encode_headers-all h none c = encode_keys-all (entries h) _ c
    encode_headers-all h (some ks) c = encode_keys-all (entries h) ks c

    encode_unless_empty-all :
        (k v : String) (c : C)
        → encode_unless_empty lib ctx k v c ≡ encode_all ctx (unless_empty k v) c
    unfolding encode_unless_empty
    encode_unless_empty-all k v c = elim (Bool-cases (str_eq v "")) [
      | inl e ↦ rw e refl
      | inr e ↦ rw e refl
    ]

    status_all :
        (code : ℕ) (c : C)
        → (if code == 0 then c else ctx.write_field ":status" (http_code_string lib code) c)
          ≡ encode_all ctx (if code == 0 then [] else (":status", lib.itoa code) ∷ []) c
    status_all code c = elim (Bool-cases (code == 0)) [
      | inl e ↦ rw e refl
      | inr e ↦ rw (e, http_code_string-itoa code) refl
    ]

    -- A response encodes its fields one after another, in a buffer that is reset before.
    pub encode_response-all :
        (r : ResHeaders) (c : C)
        → encode_response lib ctx r c ≡ encode_all ctx (response_fields r) (ctx.reset c)
    unfolding encode_response
    encode_response-all r c =
        simp (encode_all-append, status_all, encode_headers-all, encode_unless_empty-all)

    -- A pushed request encodes its four pseudo fields and then its header.
    pub encode_push-all :
        (p : PushRequest) (c : C)
        → encode_push lib ctx p c ≡ encode_all ctx (push_fields p) (ctx.reset c)
    unfolding encode_push
    encode_push-all p c = encode_headers-all p.h none _
