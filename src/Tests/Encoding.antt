-- ===== src/Tests/Encoding.antt =====
-- Lists of texts as one text, and back: the bytes of a patch in the tests.
use knative_serving_wasm.Prelude.{ℕ, zero, suc, String, ◌≡◌, ap, ◌∙◌, refl, List, [], ◌∷◌}
use Prim.Native.String.{[] as end, ◌∷◌ as ◌◂◌}
use Prim.Native.Char.{Char, char, nul, code}

-- Lists of texts as one text: each character after a tag, each text with two tags at its end.
unfoldable pub encode_text : String → String → String
encode_text end rest = nul ◂ nul ◂ rest
encode_text (c ◂ s) rest = (char 49 tt) ◂ c ◂ encode_text s rest

unfoldable pub encode : List String → String
unfolding encode_text
encode [] = ""
encode (s ∷ l) = encode_text s (encode l)

unfoldable pub push : Char → List String → List String
push c [] = []
push c (s ∷ l) = (c ◂ s) ∷ l

unfoldable pub decode_tag : ℕ → Char → List String → List String
unfolding push
decode_tag zero c l = "" ∷ l
decode_tag (suc _) c l = push c l

unfoldable pub decode : String → List String
unfolding decode_tag
decode end = []
decode (_ ◂ end) = []
decode (t ◂ c ◂ s) = decode_tag (code t) c (decode s)

decode-encode_text : (s rest : String) → decode (encode_text s rest) ≡ s ∷ decode rest
unfolding decode encode_text decode_tag push
decode-encode_text end rest = refl
decode-encode_text (c ◂ s) rest = ap (push c) (decode-encode_text s rest)

pub decode-encode : (l : List String) → decode (encode l) ≡ l
unfolding encode decode
decode-encode [] = refl
decode-encode (s ∷ l) = decode-encode_text s (encode l) ∙ ap (λ t. s ∷ t) (decode-encode l)
