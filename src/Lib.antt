-- ===== src/Lib.antt =====
-- The hardware Bitcoin wallet: a firmware in C that keeps private keys, reads transactions that the
-- host streams to it byte by byte, shows amounts and addresses, and signs.
--
-- The parts and the files that model them (paths from the repository's root):
--
--   endian.c        Endian            reading, writing and swapping 32-bit words
--   bignum256.c     Bignum            little-endian byte arrays: Bignum has comparison, addition,
--                                     subtraction and reduction, Bignum.Multiply the products, the
--                                     reduction by the modulus's complement, and the inversion
--   ecdsa.c         Secp256k1         the two prime fields of the curve; Secp256k1.Points has the points,
--                                     the multiplication of a point, and serialisation
--   hash.c          Hash              the message buffer that the hashes share; the function behind
--                                     the pointer `hashBlock` is a parameter
--   sha256.c        Sha256            the block function, and the calls that drive the buffer;
--                                     Sha256.Spec is the standard's description, and Sha256.Refine
--                                     the proof that the code meets it
--   ripemd160.c     Ripemd160         likewise, with the words in the other byte order
--   hmac_sha512.c   HmacSha512        SHA-512 with its own buffer, and the keyed hash
--   pbkdf2.c        Pbkdf2            a key from a password and a salt
--   baseconv.c      Baseconv          amounts and addresses as text
--   hwinterface.h   Storage           what a platform provides: the interface `Platform`, the contract
--                                     `IsMemory` of a storage that works, and in Storage.Ram an array
--                                     in memory that keeps it
--   aes.c           Aes               the tables and the rounds; Aes.Key gathers the three functions as
--                                     the block cipher `aes` that xex.c calls
--   xex.c           Xex               the encryption of blocks, its keys, and storage read and written
--                                     through it (Xex.Region)
--   prandom.c       Prandom           the entropy pool, random numbers, and the deterministic keys
--   wallet.c        Wallet            Wallet has the record and the static variables, Wallet.Record reads
--                                     and writes records, Wallet.Sanitise erases, Wallet.Create loads and
--                                     creates, Wallet.Address and Wallet.Change work on the loaded wallet,
--                                     Wallet.Calls is the interface that other modules call
--   transaction.c   Transaction       Transaction.Reader has the static variables and what reads the
--                                     stream, Transaction.Parse the parser,
--                                     Transaction.Signature the DER form of signatures
--
-- Base has what they share: Boolean tests, lists with indices, words with their wrap-around, bytes
-- with the number that an array of bytes stands for (`val`), and lemmas on bit operations. Program has
-- the calls as actions on a state, and rules for the relations that they respect.
--
-- The wallet stands on the others: wallet.c reads and writes records through xex.c, which goes to the
-- platform's storage; it draws random numbers and private keys from prandom.c, checksums from sha256.c,
-- keys of passwords from pbkdf2.c, and addresses from the points of ecdsa.c and both hashes.
--
-- A C array is the list of its bytes, and a function that writes through a pointer returns what it
-- wrote. A word of w bits is a natural number, cut back by `u8`, `u16`, `u32` or `u64` (% 2 ^ w) where
-- the C code does. The static variables of transaction.c are the record `Parser`, and those of wallet.c
-- and of what it calls the record `World`; functions are actions that return a result or an error
-- beside the variables. In wallet.c the error is the code that the function returns, and `last_error` is
-- set where the source sets it. The functions of the user interface that the parser calls
-- (`newOutputSeen`, `setTransactionFee`) are recorded in the list `screen`, and whether `newOutputSeen`
-- refuses an output is a parameter. The stream device is a function from the number of the call of
-- `streamGetOneByte` to the byte, since that call waits and cannot fail. The block cipher of aes.c is a
-- parameter of Xex (`Cipher`), with the law that decryption undoes encryption (`IsCipher`), which Aes.Key fills for `aes`.
--
-- Loops are recursion on the number of rounds. Some loops have no such number in the code. The reduction
-- in `bigMultiply` has 32 rounds of fuel, since each round lowers `remaining`; the zero padding in
-- `hashFinish` has 64 and that of SHA-512 has 128, since it stops within one block; the removal of zeros
-- in `encapsulateSignature` has 33, since an integer has 33 bytes at first; the loop over transactions
-- has one more than the length, since each transaction has a byte at least; the samples of the random
-- source have one more than `most_samples`, a parameter of the platform, since the hardware may give
-- samples without entropy for as long as its statistics take (Prandom.Gather says when that is enough);
-- the loops of `sanitiseNonVolatileStorage` have a round for each 32 bytes or each record and one or two more. The
-- loops of xex.c have one round for each block from the first to the last; the address of the last block
-- wraps for an empty region at address 0 or a region that ends at 2 ^ 32, and there the model stops
-- where the code goes on.
--
-- What a failed read leaves in its buffer is not modelled, nor is the erasing of variables that hold
-- secrets. Not modelled are the drivers of the devices, the copies of nanopb and libfixmath, the
-- statistics of the random source, `signTransaction`, `ecdsaSign` with its generator, the command
-- packets, HMAC_DRBG and BIP32.
pub mod Base
pub mod Endian
pub mod Bignum
pub mod Secp256k1
pub mod Hash
pub mod Sha256
pub mod Ripemd160
pub mod HmacSha512
pub mod Baseconv
pub mod Program
pub mod Pbkdf2
pub mod Storage
pub mod Aes
pub mod Xex
pub mod Prandom
pub mod Wallet
pub mod Transaction
