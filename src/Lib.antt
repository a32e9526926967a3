-- ===== src/Lib.antt =====
-- A verification library for gtk4-kee: credit ledgers between two parties, Alice and Bob, that are
-- signed item by item, and the program around them.
--
-- The parts of the program that are modelled, and the files:
--
-- * src/ledger.c and src/ledger.h are Ledger. A `struct kee_ledger_t` is the record `Ledger`
--   (Ledger/Types); the links `prev_item` are a list of items, the last one first. Ledger/Items has
--   the chain and the cache, Ledger/Serialize the encoders, Ledger/Parse the decoders, Ledger/Sign
--   `kee_ledger_sign`, Ledger/Verify the checks of signatures and `kee_ledger_verify`. A decoder
--   works on the ledger in place, so it is a function in a state monad that keeps the ledger after
--   a failure too (Ledger/Monad). Ledger/Keys has the keys of the database and the storing of an
--   item, Ledger/Store `kee_ledger_put` over src/db.c, Ledger/Resolve
--   `kee_ledger_resolve`. Ledger/Outcome and Ledger/Balances are about parsing, Ledger/Accepted and
--   Ledger/VerifyChain about verification, Ledger/SignVerify about signing, Ledger/Stored about
--   storing.
-- * src/digest.c, and `gpg_store_verify` and `gpg_verify` of src/gpg.c, are Crypto.
-- * src/content.c is Content; Content/Resolve has `kee_content_resolve`.
-- * src/aux/beamenu (beamenu.c, export.c, import.c) is Menu/Graph and Menu/File, with the round trip
--   through a file in Menu/RoundTrip. The numbers of nodes and exits, which the build chooses, are
--   arguments.
-- * src/aux/beamenu/gen.c, the program that makes the menu's file and sources from a description, is
--   Menu/Compiler: the globals are the record `Compiler`, the unread part of the buffer is an argument.
--   Menu/Compiler/Loop has the loops of `main` over the reads, Menu/Compiler/Main the two readings,
--   Menu/Compiler/Write what is written. Menu/Compiler/Chunks, LinkChunks and Reading are about how the
--   reads cut the text, Names, Places, Tables, Links, Exits and Forgotten about what the text says,
--   Decimal, Written and Data about the files. `hsearch` is a list of entries.
-- * src/gtk/kee-entry.c is Entry (the views of an entry), Entry/Load (how it takes up a ledger) and
--   Entry/Send (what its buttons do), which has the import of src/gtk/kee-import.c too. Entry/States is
--   about the views, Entry/Load/Named about loading, Entry/Confirmed about the button that confirms,
--   Entry/Exchange about two instances of the program. They call the ledger, the key store, the
--   database, the names and the transport as they are modelled here.
-- * src/gtk/nav.c is Menu/Nav, on top of the menu graph; a widget is a value of any type, and the
--   generated table of names is a list.
-- * src/gpg.c is KeyStore, but for `gpg_store_verify` and `gpg_verify`, which stand in Crypto. The store
--   and the files are a state that calls change in place (KeyStore/File has the records, KeyStore/Load
--   `gpg_key_load`, KeyStore/Create and KeyStore/Text the making of a key and its file,
--   KeyStore/Check `gpg_store_check`, KeyStore/Sign `gpg_store_sign_with`, KeyStore/Cipher the
--   encryption). KeyStore/Sound and KeyStore/Accepted are about signing, KeyStore/Sealed,
--   KeyStore/KeyFile, KeyStore/Stored and KeyStore/RoundTrip about the file of a key, and
--   KeyStore/Ledgers joins the store and the ledger.
-- * src/transport.c is Transport: Transport/Pack has `pack` and `unpack`, Transport/Sending and
--   Transport/Reading what is sent and read. The pointers `cmd` and `data` are offsets in the chunk.
-- * src/db.c is Database: Database/Write and Database/Browse, and Database/Listing,
--   Database/Sorted, Database/Skipped and Database/Frames about going through the entries. What LMDB allocates is a
--   handle that is null, open or freed.
-- * src/dn.c is DistinguishedName: the pointers into its block of memory are offsets.
--   DistinguishedName/Pointers and Reading are about what they lead to.
-- * src/settings.c, the table of settings, is Settings.
--
-- Prelude has what they share: tests on numbers, lists with native indices, bytes in memory, and
-- `Result`, in which `err c` is a return of the code `c` (or of NULL) and `fault` an access that C
-- does not define. Examples has executable stand-ins for the libraries, and applies the theorems to
-- small data.
--
-- Code that is not in the repository, or is a copy of another project's, is an argument: libtasn1
-- (`Asn1`), libgcrypt (`Gcrypt`), src/aux/liblash (`Lash`), the heap (`Alloc`), the mail
-- parser (`Resolver`), zlib and libb64 (`Codec`), LMDB (`Lmdb`), the LDAP library
-- (`Str2Dn`), the files (`Disk`, and `Writer` for one that is open). They are gathered
-- for the ledger in `World` and for the key store in `Around`. Three parts of the repository are
-- interfaces between components: the part of src/gpg.c that signs (`Signer`), which KeyStore/Sign
-- fills, `db_add` of src/db.c, an argument of `item_put_buf` that Ledger/Store fills, and
-- src/cadir.c, which reads the file that a digest names (`Resolver`).
--
-- Numbers: an `int` is its 32-bit pattern and wraps where it is added to (`add_int`); a `size_t` that
-- may wrap is written modulo 2^64; sizes of buffers are the source's, and a write behind the end of
-- one is a `fault`. The loops that read and write the file of a key move 1024 bytes a round and have
-- 1024 rounds, which is what BUFLEN holds (`items_max`). The loops of
-- the menu compiler over its reads take fuel, and so does the loop that writes its data: a round for
-- each byte of the description is enough, and two for the data where a write takes all that it is given.
-- The loop of `kee_ledger_verify` runs over the chain; those of `beamenu_load_file` run over the nodes,
-- the exits, and the bytes of the file.
--
-- Of a signature libgcrypt is assumed to accept what it made, where `gpg_store_verify` puts it together
-- again as it was: where neither part begins with a byte that only repeats the sign.
--
-- Not modelled: opening the database; printing, the command line, the camera, which call
-- libraries and keep little state; the widgets themselves, and which reference to a widget the toolkit
-- counts.
pub mod Content
pub mod Crypto
pub mod Database
pub mod DistinguishedName
pub mod Entry
pub mod Examples
pub mod KeyStore
pub mod Ledger
pub mod Menu
pub mod Prelude
pub mod Settings
pub mod Transport
