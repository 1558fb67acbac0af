-- ===== src/Server/FreshKey.antt =====
-- xrpc_server.cpp: `test`, which nothing calls: it prints a fresh key and its address.
use Prim.Native.String as Str
use xrpcserver.Prelude.{String, codes}
use xrpcserver.Env.{Env}
use xrpcserver.Utility.{hex_text}

module _ ⦃E : Env⦄ where
  -- `key` is the private key that the constructor makes; the result is what is written to the console.
  unfoldable pub test : E.Key → String
  unfolding hex_text
  test key =
      let public_key = E.get_public_key key in
      let address = Str.◌++◌ "address: " (Str.◌++◌ (E.to_address public_key) "\n") in
      let public_line =
        Str.◌++◌ "public key: "
          (hex_text (codes (E.public_key_bytes public_key)) (Str.◌++◌ "\n" address)) in
      Str.◌++◌ "private key: " (hex_text (codes (E.key_bytes key)) (Str.◌++◌ "\n" public_line))
