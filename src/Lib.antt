-- ===== src/Lib.antt =====
-- secmem: a Go library that keeps secrets in locked, guarded memory outside the Go heap. This
-- development models its root package: the canary strips, the registry that every wipe path goes
-- through, the quarantine of destroyed regions, the secure buffer and the slot arena. Of the
-- package secmem-crypto, which keeps keys in such buffers, it models the OpenSSH key files, their
-- armour and the RSA structures that are built from them.
--
-- Errors models errors.go. A Go error is the list of what errors.Join and %w put together.
--
-- Canary models canary.go: CanaryLayout is canaryLayout, strips and for_each_zone are forEachZone,
-- arm and intact keep their names. Canary/Pattern, Zones, Check, Guards, Arena and Slots hold the proofs
-- on the byte comparison, on the walk, on the check, on where the zones of the two layouts lie,
-- and on what they spare.
--
-- Region models region.go. A Mapping is one allocation: its bytes, its page protection, and the
-- two flags that its owner shares with the registry. A load or a store that the page protection
-- forbids is none, which stands for the fault that ends the process.
--
-- KeyMap is a Go map from uint64 keys. Registry models the janitor of registry.go: the live and
-- the wiped set, and the operations that file, take and move a registration. Registry/Sets holds
-- their laws. Registry/Memory adds the mappings and the quarantine to them and models the
-- operations that wipe a region and give it back: wipe_and_free, mark_wiped, release,
-- wipe_in_place, try_wipe_in_place and wipe_all_in_place. Registry/Wipe, WipeAll and Release are
-- about these.
--
-- Quarantine models quarantine.go: retire_secret_mem, trim_locked and set_quarantine_limits, which
-- return the ranges that they unmap. Quarantine/Fifo is about them.
--
-- BufferLock models buflock.go, one function for each atomic step of its methods. BufferLock/Steps
-- puts any number of goroutines on one lock, as a step relation that counts them at each point of
-- the code.
--
-- Buffer models securebuf.go and closedatrest.go: Buffer is bufferState, open_use and close_use
-- are open and close, and make_read_only, make_read_write and truncate are the methods of those
-- names. Buffer/Seal models Seal and Unseal with sealAuthenticate and sealVerify of sealauth.go,
-- and Buffer/Lifecycle the constructors and Destroy, over the state of Registry/Memory.
-- Buffer/Plain, Sealed, Unsealed, Truncate, Filled and Lifetime are about these.
--
-- Buffer/Access models the access methods of securebuf_access.go, each with the open and the close
-- that surround it in a buffer that is closed at rest. Buffer/Accessed and AccessLaws are about them.
--
-- SshWire models the SSH wire writer and reader of secmem-crypto/openssh_wire.go and
-- secmem-crypto/parse_openssh.go. A Put is a call on a fixed slice and its cursor, none the panic of
-- a write that does not fit; SshWire/Puts relates a Put to the bytes that it writes, and
-- SshWire/Reads the reader to them. Pem models pemLen and pemEncode with the same writer.
--
-- OpenSsh has the ciphers and the header of the container, OpenSsh/PrivateBlock the private block
-- with parseOpenSSH, OpenSsh/Encrypted parseOpenSSHEncrypted of secmem-crypto/parse_encrypted.go with
-- opensshCrypt, OpenSsh/Marshal marshalOpenSSH of secmem-crypto/marshal_openssh.go, and OpenSsh/Aes
-- the two modes of secmem-crypto/openssh_cipher.go. OpenSsh/Container, Written, Outcome and Protected
-- are about the marshaller, HeaderTrip, KeyTrip, RoundTrip and ProtectedTrip about the readers on what
-- it wrote, Refusals about the order of the checks, Modes and Chained about the two modes.
--
-- Der models derWriter and the assembly of pkcs1DER of secmem-crypto/parse_openssh.go, bitLen, and
-- checkRSAIntegers of secmem-crypto/rsabounds.go; Der/Lengths, Sequence, Integers and Bounds are about these.
-- ModReduce models secmem-crypto/modreduce.go: reduce_mod is reduceMod over lists of 64-bit limbs with
-- their wrap-around, decrement is decrementBE. ModReduce/Limbs, Choose and Loop follow a round and the
-- loop, Words and Digits the load and the store, and Reduced and Decrement are about the whole. Pkcs1
-- is pkcs1DER on top of these, and Pkcs1/Assembled is about it.
--
-- Arena models securearena.go: Arena is arenaState, Slot is ArenaSlot, and acquire, release,
-- with_bytes_err, make_read_only, make_read_write and Arena/New's new_arena are the methods of the
-- same names. The int32 links of the free list and the uint64 generations are written as bit
-- patterns with their wrap-around. Arena/FreeList and Invariant state the invariant of the index,
-- Acquire, Push, Claim and Pigeonhole show that the operations keep it, Wipe, Release and Borrow
-- show what happens to the slab, History follows a handle through any sequence of operations, Seed
-- and Construct are about NewArena, and Destroy models the method of that name over the state of
-- Registry/Memory.
--
-- Termination models terminationwipe.go: serve is the goroutine of installTerminationWipeHooks,
-- on_signal a case of its select with completeTermination, as a list of effects for a list of inputs;
-- record_inherited_ignores is that of terminationignore_signal.go. Termination/Handler is about it.
--
-- Passphrase models selectWord of secmem-crypto/passphrase.go, and Passphrase/Word is about it.
--
-- SealTag models the tag of sealauth.go: the HMAC state and sealComputeTag, whose message SealTag/Message
-- is about, and SealTag/Mac the whole. SealKeys models sealKeyring: with_prekey and init_locked, with what
-- other goroutines do in between. SealKeys/Served, Cleanup and Rewiped are about them, the last together
-- with the pass of the janitor over all regions and with sealVerify.
--
-- Hmac models secmem-crypto/hmac_inplace.go: hmac_in_place and hkdf_compute, in a region that is a list of
-- bytes. Hmac/Pads, Mac, Run and Hkdf are about them, and have the reference definitions of both.
--
-- Pbkdf2 models secmem-crypto/pbkdf2_inplace.go over Hmac: pbkdf2_compute and pbkdf2_run, whose inner
-- loop is iterate. Pbkdf2/Rounds, Derived and Computed are about them.
--
-- HttpAuth models httpauth/transport.go: decide, copy_token and round_trip are the methods of those
-- names, over the Unicode functions of package strings as a record, and HttpAuth/Config has the options
-- and the constructors. HttpAuth/Decide, Cleartext and Trip are about them.
--
-- Redact models the key set of redact/handler.go, and Redact/Handler the handler: a record's attributes
-- are a tree, and so is what reflection finds in a value. Redact/Sanitizer is the loop of Sanitize and
-- the truncation of redact/sanitizer.go. Redact/KeyMatch, Handler/Masked, Handler/Concealed and
-- Sanitizer/Passes are about them.
--
-- What is not modelled. The use of the locks: each operation of an arena, a buffer or the janitor
-- is one that holds the locks which its source takes, and nothing writes to a region between the
-- two passes of wipe_all_in_place; which locks are held at its first pass, and the order in which
-- the second gets them, are arguments. The operating system: allocation, mprotect, the page lock,
-- the seal cipher and the calls of the quarantine are arguments, one answer for each place that
-- makes the call. SHA-512 and the other one-shot hash functions are arguments. A buffer's operations take the answer of the keyring and the
-- computation of the tag as arguments, of which those of SealKeys and SealTag are an instance; no other
-- goroutine runs between the registration of a new prekey and its fill. A region that a
-- failing constructor gives back is not in its result. The text of error messages, logging, the
-- finalizer, and the register and cache clearing that no state of the model shows. Of the key files:
-- bcrypt_pbkdf, the AES block functions and ChaCha20-Poly1305 are arguments, and so are the random
-- bytes and the allocations; a key is what the code hands to the constructor of the signer, whose own
-- checks are outside; the scratch buffers and their wipes, borrowOrdered, and the reader of the armour
-- are left out, and so are the ways in which opensshCrypt fails before the cipher runs or in the wipe of
-- the AES schedule behind it, and the comparison of an Ed25519 public key with its seed. What the kernel
-- does with a signal, and the time that the bounded wipe of the termination handler waits, are inputs; the
-- inputs are the signals that the handler's select takes, so that the channel of capacity one, and a signal
-- between a Stop and the Notify behind it, are not represented. The texts of Redact are lists of runes, and
-- its render cap counts these where the code counts bytes. A negative length, offset or index, and a nil handle or callback, are not represented.
-- The allocation of pkcs1DER's buffer and the wipes of its arrays are left out.
--
-- Fuel. ctr_rounds, cbc_rounds and put_lines run on the length of what they walk, and take a byte of
-- it at least in each round; length_octets runs eight rounds, one for each byte of an int.
-- hkdf_rounds and pbkdf2_blocks run on the length of dst, of which each round fills a byte at least. Every
-- other loop is a structural recursion on the list or the count that the source walks.
pub mod Arena
pub mod Buffer
pub mod BufferLock
pub mod Canary
pub mod Der
pub mod Errors
pub mod Hmac
pub mod HttpAuth
pub mod KeyMap
pub mod ModReduce
pub mod OpenSsh
pub mod Passphrase
pub mod Pbkdf2
pub mod Pem
pub mod Pkcs1
pub mod Prelude
pub mod Quarantine
pub mod Redact
pub mod Region
pub mod Registry
pub mod SealKeys
pub mod SealTag
pub mod SshWire
pub mod Termination
pub mod Tests
